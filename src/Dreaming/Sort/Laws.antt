-- ===== src/Dreaming/Sort/Laws.antt =====
-- Sorting keeps the entries of a list.
use codeberg.Base.{
  suc, ◌≡◌, inl, inr, List, [], ◌∷◌, length, In, here, there, In-cons, arith, refl, Bool-cases,
}
use codeberg.Dreaming.Sort.{Order, is_after, insert_by, sort_by}

module _ {A : Type 0} (compare : A → A → Order) where
  In-insert_by : (a b : A) (l : List A) → In a (insert_by compare b l) → In a (b ∷ l)
  unfolding insert_by
  In-insert_by a b [] i = i
  In-insert_by a b (c ∷ l) i = elim (Bool-cases (is_after (compare b c))) [
    | inr first ↦ rw (first, insert_by) at i
    | inl later ↦ elim (In-cons (rw (later, insert_by) at i)) [
      | inl same ↦ rw same (there here)
      | inr j ↦ elim (In-cons (In-insert_by a b l j)) [
        | inl same ↦ rw same here
        | inr k ↦ there (there k)
      ]
    ]
  ]

  insert_by-In : (a b : A) (l : List A) → In a (b ∷ l) → In a (insert_by compare b l)
  unfolding insert_by
  insert_by-In a b [] i = i
  insert_by-In a b (c ∷ l) i = elim (Bool-cases (is_after (compare b c))) [
    | inr first ↦ rw (first, insert_by) i
    | inl later ↦
        rw (later, insert_by)
          (elim (In-cons i) [
            | inl same ↦ there (insert_by-In a b l (rw same here))
            | inr j ↦ elim (In-cons j) [
              | inl same ↦ rw same here
              | inr k ↦ there (insert_by-In a b l (there k))
            ]
          ])
  ]

  length-insert_by : (b : A) (l : List A) → length (insert_by compare b l) ≡ suc (length l)
  unfolding insert_by
  length-insert_by b [] = refl
  length-insert_by b (c ∷ l) = ground (arith, length-insert_by b l)

  pub In-sort_by : (a : A) (l : List A) → In a (sort_by compare l) → In a l
  unfolding sort_by
  In-sort_by a [] i = i
  In-sort_by a (b ∷ l) i = elim (In-cons (In-insert_by a b (sort_by compare l) i)) [
    | inl same ↦ rw same here
    | inr j ↦ there (In-sort_by a l j)
  ]

  pub sort_by-In : (a : A) (l : List A) → In a l → In a (sort_by compare l)
  unfolding sort_by
  sort_by-In a [] i = i
  sort_by-In a (b ∷ l) i =
      insert_by-In a b (sort_by compare l)
        (elim (In-cons i) [ inl same ↦ rw same here | inr j ↦ there (sort_by-In a l j) ])

  pub length-sort_by : (l : List A) → length (sort_by compare l) ≡ length l
  unfolding sort_by
  length-sort_by [] = refl
  length-sort_by (b ∷ l) = omega (arith, length-insert_by b (sort_by compare l), length-sort_by l)
