-- ===== src/Prefixes.antt =====
-- Checkpoints of prefixes of a chat, in a directory of files named by a key of each prefix: what
-- agent/src/core/request-budget/checkpoints.ts and agent/src/core/history-checkpoints.ts share.
--
-- The hash and the fingerprint of a message are arguments. The directory is its files by their keys;
-- what cannot be read or is of another version is `none`.
pub mod Laws
use codeberg.Base.{
  ℕ, suc, ◌&&◌, if◌then◌else◌, Bool, true, false, Option, none, some, List, [], ◌∷◌, ◌++◌,
}
use codeberg.Text.{Text, same_text}

module _ {M : Type 0} (hash : Text → Text) (fingerprint : M → Text) where
  unfoldable pub prefix_keys : Text → List M → List Text
  prefix_keys previous [] = []
  prefix_keys previous (message ∷ rest) =
      hash (previous ++ fingerprint message)
      ∷ prefix_keys (hash (previous ++ fingerprint message)) rest

unfoldable pub read_file {ℓ} : {A : Type ℓ} → Text → List (Text × Option A) → Option A
read_file key [] = none
read_file key ((k, contents) ∷ rest) = if same_text k key then contents else read_file key rest

module _ (resolves : Text → Bool) where
  unfoldable pub all_resolve : List Text → Bool
  all_resolve [] = true
  all_resolve (path ∷ rest) = resolves path && all_resolve rest

  abbrev pub has_archives : List Text → Bool
  has_archives [] = false
  has_archives (path ∷ rest) = all_resolve (path ∷ rest)

module _ {A : Type 0} (accepts : Text → ℕ → A → Bool) where
  -- What is found under a key for a prefix of `count` messages.
  unfoldable pub check : Text → ℕ → Option A → Option A
  check key count none = none
  check key count (some saved) = if accepts key count saved then some saved else none

  -- The loop of `load`, from the longest prefix on; `count` is the length of that of the first key.
  unfoldable pub load : List (Text × Option A) → ℕ → List Text → Option A
  load files count [] = none
  load files count (key ∷ keys) = elim (load files (suc count) keys) [
    | some saved ↦ some saved
    | none ↦ check key count (read_file key files)
  ]
