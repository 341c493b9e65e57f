-- ===== src/RequestBudget/Checkpoints.antt =====
-- Checkpoints of compacted requests: agent/src/core/request-budget/checkpoints.ts.
--
-- The hash, the fingerprint of a message and whether a path resolves are arguments. The directory is
-- its files by their keys; what cannot be read or is of another version is `none`.
pub mod Systems
pub mod Sound
pub mod Replace
pub mod Restore
use codeberg.Base.{
  ℕ, zero, suc, ◌+◌, ◌-◌, ◌==◌, ltb, leb, not, ◌&&◌, ◌||◌, if◌then◌else◌, Bool, true, false, Option,
  none, some, List, [], ◌∷◌, ◌++◌, length, take, drop, get_elem?, keep_if,
}
use codeberg.Prefixes.{prefix_keys, has_archives, load}
use codeberg.Text.{Text, same_text}
use codeberg.History.Files.{captures}
use codeberg.RequestBudget.Estimate.{user, same_role, Part, text, Content, plain, parts, Message}
use codeberg.RequestBudget.Compact.{RequestCheckpoint, is_system}

pub record SavedCheckpoint : Type 0 where
  pub checkpoint : RequestCheckpoint
  pub hash : Text

abbrev pub Files : Type 0
Files = List (Text × Option SavedCheckpoint)

unfoldable pub has_key : Text → List Text → Bool
has_key key [] = false
has_key key (k ∷ rest) = same_text k key || has_key key rest

abbrev pub is_text : Part → Bool
is_text (text t) = true
is_text _ = false

unfoldable pub all_text : List Part → Bool
all_text [] = true
all_text (part ∷ rest) = is_text part && all_text rest

abbrev pub is_text_content : Content → Bool
is_text_content (plain t) = false
is_text_content (parts ps) = all_text ps

abbrev pub keeps_below : ℕ → Option ℕ → Bool
keeps_below count none = true
keeps_below count (some keep) = ltb keep count

unfoldable pub valid : SavedCheckpoint → Text → ℕ → Bool
valid saved key count =
    same_text saved.hash key
    && saved.checkpoint.count == count
    && same_role saved.checkpoint.marker.role user
    && is_text_content saved.checkpoint.marker.content
    && keeps_below count saved.checkpoint.preserve_user

abbrev pub part_text : Part → Text
part_text (text t) = t
part_text _ = []

unfoldable pub joined : List Part → Text
joined [] = []
joined (part ∷ []) = part_text part
joined (part ∷ (next ∷ rest)) = part_text part ++ 10 ∷ joined (next ∷ rest)

abbrev pub text_of : Content → Text
text_of (plain t) = []
text_of (parts ps) = joined ps

abbrev pub archives : SavedCheckpoint → List Text
archives saved = captures (text_of saved.checkpoint.marker.content)

abbrev pub role_is_user : Option Message → Bool
role_is_user none = false
role_is_user (some message) = same_role message.role user

abbrev pub kept_user : List Message → Option Message → List Message
kept_user rest none = rest
kept_user rest (some message) = message ∷ rest

-- The prompt with its first messages replaced, `none` where the loop of `restore` breaks.
unfoldable pub replace_prefix : RequestCheckpoint → List Message → Option (List Message)
replace_prefix c prompt =
    let prefix = take c.count prompt in
    let system = keep_if is_system prefix in
    elim c.preserve_user [
      | none ↦ some (system ++ c.marker ∷ drop c.count prompt)
      | some i ↦
          if role_is_user (get_elem? prefix i)
          then some (system ++ c.marker ∷ kept_user (drop c.count prompt) (get_elem? prefix i))
          else none
    ]

module _ (hash : Text → Text) (fingerprint : Message → Text) where
  -- `save`, where the write is made or fails.
  unfoldable pub save : Bool → List Message → RequestCheckpoint → Files → Files
  save written prompt c files =
      elim (if c.count == 0
        then none
        else get_elem? (prefix_keys hash fingerprint [] prompt) (c.count - 1)) [
          | none ↦ files
          | some key ↦
              if written then (key, some (record { checkpoint = c; hash = key })) ∷ files else files
        ]

abbrev pub accepts : (Text → Bool) → Text → ℕ → SavedCheckpoint → Bool
accepts resolves key count saved = valid saved key count && has_archives resolves (archives saved)

module _ (hash : Text → Text) (fingerprint : Message → Text) (resolves : Text → Bool) where
  -- The loop of `restore`, for the passes that are left.
  unfoldable pub restore_from : Files → ℕ → List Text → List Message → List Message
  restore_from files zero visited prompt = prompt
  restore_from files (suc passes) visited prompt =
      elim (load (accepts resolves) files 1 (prefix_keys hash fingerprint [] prompt)) [
        | none ↦ prompt
        | some saved ↦ elim (has_key saved.hash visited) [
          | true ↦ prompt
          | false ↦ elim (replace_prefix saved.checkpoint prompt) [
            | none ↦ prompt
            | some next ↦ restore_from files passes (saved.hash ∷ visited) next
          ]
        ]
      ]

  unfoldable pub restore : Files → List Message → List Message
  restore files prompt = restore_from files 32 [] prompt
