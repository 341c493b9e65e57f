-- ===== src/Branch/Transcript.antt =====
-- The messages that a branch starts with: `branchEndIndex` and `branchTranscript`.
pub mod Laws
use codeberg.Base.{
  ℕ, zero, suc, ◌+◌, ◌-◌, min, ◌&&◌, if◌then◌else◌, Bool, true, false, Option, none, some, List, [],
  ◌∷◌, map, length, take, get_elem?,
}
use codeberg.History.Messages.{Role, user, assistant, system, tool}

-- What `Math.trunc` gives of a number.
pub data Truncated : Type 0 where
  not_a_number minus_infinity infinity : Truncated
  at : ℕ → Truncated
  negative : ℕ → Truncated

abbrev pub is_user : Role → Bool
is_user user = true
is_user _ = false

abbrev pub is_assistant : Role → Bool
is_assistant assistant = true
is_assistant _ = false

pub record BranchOptions {ℓ} (A : Type ℓ) : Type ℓ where
  pub through_index : Option Truncated
  pub remap : Option (A → A)

-- The index within `0 .. last` that a number stands for.
abbrev pub clamp : ℕ → Truncated → ℕ
clamp last (at n) = min n last
clamp last (negative n) = 0
clamp last minus_infinity = 0
clamp last infinity = last
clamp last not_a_number = last

abbrev pub remapped {ℓ} : {A : Type ℓ} → Option (A → A) → List A → List A
remapped none cloned = cloned
remapped (some f) cloned = map f cloned

abbrev pub requested : ℕ → Option Truncated → Truncated
requested last none = at last
requested last (some index) = index

module _ {ℓ} {A : Type ℓ} (role : A → Role) where
  abbrev pub has_role : (Role → Bool) → Option A → Bool
  has_role p none = false
  has_role p (some message) = p (role message)

  -- A question at this index, and its answer at the next.
  abbrev pub asks : List A → ℕ → Bool
  asks messages i =
      has_role is_user (get_elem? messages i) && has_role is_assistant (get_elem? messages (suc i))

  abbrev pub snap : List A → ℕ → ℕ
  snap messages i = if asks messages i then suc i else i

  -- `none` is the -1 of an empty chat.
  unfoldable pub branch_end_index : List A → Truncated → Option ℕ
  branch_end_index [] through_index = none
  branch_end_index (m ∷ rest) through_index =
      some (snap (m ∷ rest) (clamp (length (m ∷ rest) - 1) through_index))

  unfoldable pub branch_transcript : List A → BranchOptions A → List A
  branch_transcript messages o =
      elim (branch_end_index messages (requested (length messages - 1) o.through_index)) [
        | none ↦ []
        | some end ↦ remapped o.remap (take (suc end) messages)
      ]
