-- ===== src/History/Fit/Marker.antt =====
-- The paths that a marker is given can be read from its text again.
use mathlib.Core.List.{append_assoc}
use codeberg.Text.{Text}
use codeberg.Base.{ℕ, Option, none, some, List, [], ◌∷◌, ◌++◌, In, In-cons, inl, inr}
use codeberg.History.Files.{open_tag, close_tag, captures}
use codeberg.History.Files.Laws.{IsPath, captures-append, captures-tag}
use codeberg.History.Fit.{
  join, map_text, tag, file_block, advice, summary_text, omission_text, history_marker,
}

-- Every path that a marker is given can be read from its text again.
tags-In :
    (files : List Text) (rest : Text) {f : Text}
    → IsPath f
    → In f files
    → In f (captures (join (10 ∷ []) (map_text tag files) ++ rest))
tags-In [] rest p i = elim i [ ]
tags-In (x ∷ []) rest {f} p i = elim (In-cons i) [
  | inl same ↦
      rw (same, append_assoc open_tag (f ++ close_tag) rest, append_assoc f close_tag rest)
        (captures-tag f rest p.no_lt p.filled)
  | inr j ↦ elim j [ ]
]
tags-In (x ∷ (y ∷ l)) rest {f} p i =
    rw (append_assoc (tag x) (10 ∷ join (10 ∷ []) (map_text tag (y ∷ l))) rest) (elim (In-cons i) [
      | inl same ↦
          rw
            (
              same,
              append_assoc open_tag (f ++ close_tag)
                  (10 ∷ (join (10 ∷ []) (map_text tag (y ∷ l)) ++ rest)),
              append_assoc f close_tag (10 ∷ (join (10 ∷ []) (map_text tag (y ∷ l)) ++ rest)),
            )
            (captures-tag f (10 ∷ (join (10 ∷ []) (map_text tag (y ∷ l)) ++ rest)) p.no_lt p.filled)
      | inr j ↦ captures-append (tag x) (10 ∷ (join (10 ∷ []) (map_text tag (y ∷ l)) ++ rest)) (
          captures-append (10 ∷ []) (join (10 ∷ []) (map_text tag (y ∷ l)) ++ rest)
            (tags-In (y ∷ l) rest p j))
    ])

block-In :
    (files : List Text) {f : Text} → IsPath f → In f files → In f (captures (file_block files))
unfolding file_block
block-In [] p i = elim i [ ]
block-In (x ∷ l) p i =
    captures-append (10 ∷ []) (join (10 ∷ []) (map_text tag (x ∷ l)) ++ 10 ∷ advice)
      (tags-In (x ∷ l) (10 ∷ advice) p i)

pub marker-In :
    (s : Option Text) (omitted : ℕ) (files : List Text) {f : Text}
    → IsPath f
    → In f files
    → In f (captures (history_marker s omitted files).text)
unfolding history_marker
marker-In none omitted files p i =
    captures-append (omission_text omitted) (file_block files) (block-In files p i)
marker-In (some s) omitted files p i =
    captures-append (summary_text s) (file_block files) (block-In files p i)
