-- ===== src/History/Files.antt =====
-- The `<history_file>` tags of a text: `HISTORY_FILE_RE`, `historyFilesIn` and `dedupe` of
-- agent/src/core/history.ts.
pub mod Laws
use codeberg.Text.{
  Text, codes, ends_with, is_empty, is_space, same_text, starts_with, strip_prefix, trim, trim_end,
  trim_start,
}
use codeberg.Base.{
  ℕ, ◌==◌, leb, ◌&&◌, ◌||◌, not, if◌then◌else◌, Bool, true, false, Option, none, some, List, [],
  ◌∷◌, ◌++◌,
}
use codeberg.History.Messages.{ModelMessage}

abbrev pub open_tag : Text
open_tag = codes "<history_file>"

abbrev pub close_tag : Text
close_tag = codes "</history_file>"

-- `([^<]+)` followed by the closing tag: the group and nothing else, if they match here.
unfoldable pub match_group : Text → Text → Option Text
match_group group [] = none
match_group group (c ∷ t) =
    if c == b'<'
    then (elim (strip_prefix close_tag (c ∷ t)) [
      | none ↦ none
      | some rest ↦ if is_empty group then none else some group
    ])
    else match_group (group ++ c ∷ []) t

-- The group of a match that starts here.
unfoldable pub match_here : Text → Option Text
match_here t = elim (strip_prefix open_tag t) [ none ↦ none | some rest ↦ match_group [] rest ]

-- `matchAll`: a match holds `<` only at the start of its two tags, so none starts inside another,
-- and the matches are those of all positions.
unfoldable pub captures : Text → List Text
captures [] = []
captures (c ∷ t) = elim (match_here (c ∷ t)) [ none ↦ captures t | some group ↦ group ∷ captures t ]

-- `match[1]?.trim()`, if it is not empty.
unfoldable pub trimmed : List Text → List Text
trimmed [] = []
trimmed (group ∷ rest) = if is_empty (trim group) then trimmed rest else trim group ∷ trimmed rest

unfoldable pub history_files_in : List ModelMessage → List Text
history_files_in [] = []
history_files_in (message ∷ rest) = trimmed (captures message.text) ++ history_files_in rest

unfoldable pub has : List Text → Text → Bool
has [] path = false
has (p ∷ seen) path = same_text p path || has seen path

-- The loop of `dedupe`; `out` holds what `seen` does.
unfoldable pub dedupe_from : List Text → List Text → List Text
dedupe_from out [] = out
dedupe_from out (path ∷ rest) = dedupe_from (if has out path then out else out ++ path ∷ []) rest

unfoldable pub dedupe : List Text → List Text
dedupe paths = dedupe_from [] paths
