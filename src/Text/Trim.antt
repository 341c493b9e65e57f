-- ===== src/Text/Trim.antt =====
-- Trimming a second time changes nothing.
use codeberg.Text.{Text, is_empty, is_space, trim, trim_end, trim_start}
use codeberg.Base.{ℕ, ◌≡◌, ◌&&◌, false, [], ◌∷◌, All, arith, refl, Bool-cases, inl, inr, ap, ◌∙◌}

-- A text that does not begin with a space.
abbrev pub Starts : Text → Type 0
Starts [] = Unit {0}
Starts (c ∷ t) = is_space c ≡ false

pub trim_start-Starts : (t : Text) → Starts (trim_start t)
unfolding trim_start
trim_start-Starts [] = tt
trim_start-Starts (c ∷ t) = elim (Bool-cases (is_space c)) [
  | inl space ↦ rw (space, trim_start) (trim_start-Starts t)
  | inr other ↦ rw (other, trim_start) other
]

pub trim_start_of_Starts : (t : Text) → Starts t → trim_start t ≡ t
unfolding trim_start
trim_start_of_Starts [] h = refl
trim_start_of_Starts (c ∷ t) h = rw (h, trim_start)

pub trim_end-Starts : (t : Text) → Starts t → Starts (trim_end t)
unfolding trim_end
trim_end-Starts [] h = tt
trim_end-Starts (c ∷ t) h = rw (h, trim_end) h

pub trim_end_idem : (t : Text) → trim_end (trim_end t) ≡ trim_end t
unfolding trim_end
trim_end_idem [] = refl
trim_end_idem (c ∷ t) = ground (arith, trim_end_idem t)

-- A trimmed text is its own trimming.
pub trim_idem : (t : Text) → trim (trim t) ≡ trim t
unfolding trim
trim_idem t =
    ap trim_end (
      trim_start_of_Starts (trim_end (trim_start t))
        (trim_end-Starts (trim_start t) (trim_start-Starts t)))
    ∙ trim_end_idem (trim_start t)

-- Trimming only drops code units.
module _ (P : ℕ → Type 0) where
  trim_start-All : (t : Text) → All P t → All P (trim_start t)
  unfolding trim_start
  trim_start-All [] h = tt
  trim_start-All (c ∷ t) (p, h) = elim (Bool-cases (is_space c)) [
    | inl space ↦ rw (space, trim_start) (trim_start-All t h)
    | inr other ↦ rw (other, trim_start) (p, h)
  ]

  trim_end-All : (t : Text) → All P t → All P (trim_end t)
  unfolding trim_end
  trim_end-All [] h = tt
  trim_end-All (c ∷ t) (p, h) = elim (Bool-cases (is_space c && is_empty (trim_end t))) [
    | inl drops ↦ rw (drops, trim_end) tt
    | inr keeps ↦ rw (keeps, trim_end) (p, trim_end-All t h)
  ]

  pub trim-All : (t : Text) → All P t → All P (trim t)
  unfolding trim
  trim-All t h = trim_end-All (trim_start t) (trim_start-All t h)
