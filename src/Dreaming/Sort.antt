-- ===== src/Dreaming/Sort.antt =====
-- The sort of arrays by a comparison, which is stable.
pub mod Laws
use codeberg.Base.{if◌then◌else◌, Bool, true, false, List, [], ◌∷◌}

pub data Order : Type 0 where
  before equal after : Order

-- `a || b` of two comparisons
abbrev pub then_by : Order → Order → Order
then_by equal next = next
then_by order next = order

abbrev pub is_after : Order → Bool
is_after after = true
is_after _ = false

module _ {A : Type 0} (compare : A → A → Order) where
  unfoldable pub insert_by : A → List A → List A
  insert_by a [] = a ∷ []
  insert_by a (next ∷ rest) =
      let later = insert_by a rest in
      if is_after (compare a next) then next ∷ later else a ∷ (next ∷ rest)

  unfoldable pub sort_by : List A → List A
  sort_by [] = []
  sort_by (a ∷ rest) = insert_by a (sort_by rest)
