-- ===== src/Branch/Title/Laws.antt =====
-- A branch of a branch keeps its title.
use codeberg.Text.{Text, ends_with, is_empty, is_space, trim, trim_end, trim_start}
use codeberg.Text.Same.{same_text_refl}
use codeberg.Text.Trim.{
  Starts, trim_end-Starts, trim_end_idem, trim_start-Starts, trim_start_of_Starts,
}
use codeberg.Base.{
  ℕ, ◌-◌, leb, ◌&&◌, ◌==◌, ◌≡◌, ◌≢◌, ◌⊎◌, not, if◌then◌else◌, Bool, true, false, [], ◌∷◌, ◌++◌,
  length, drop, length-append, arith, refl, Bool-cases, subst, inl, inr, sym,
}
use codeberg.Branch.Title.{branch_suffix, collapse, or_text, branch_title}

-- No white space but single spaces, and none at the start if `in_space` holds.
abbrev pub is_collapsed : Bool → Text → Bool
is_collapsed in_space [] = true
is_collapsed in_space (c ∷ t) =
    if is_space c then c == 32 && not in_space && is_collapsed true t else is_collapsed false t

space-is_space : is_space 32 ≡ true
unfolding is_space
space-is_space = refl

collapse-is_collapsed : (b : Bool) (t : Text) → is_collapsed b (collapse b t) ≡ true
unfolding collapse
collapse-is_collapsed b [] = refl
collapse-is_collapsed false (c ∷ t) = elim (Bool-cases (is_space c)) [
  | inl space ↦ rw (space, collapse, space-is_space) (collapse-is_collapsed true t)
  | inr other ↦ rw (other, collapse, other) (collapse-is_collapsed false t)
]
collapse-is_collapsed true (c ∷ t) = elim (Bool-cases (is_space c)) [
  | inl space ↦ rw (space, collapse) (collapse-is_collapsed true t)
  | inr other ↦ rw (other, collapse, other) (collapse-is_collapsed false t)
]

collapse_of_collapsed : (b : Bool) (t : Text) → is_collapsed b t ≡ true → collapse b t ≡ t
unfolding collapse
collapse_of_collapsed b [] h = refl
collapse_of_collapsed false (c ∷ t) h =
    ground (arith, collapse_of_collapsed true t, collapse_of_collapsed false t)
collapse_of_collapsed true (c ∷ t) h =
    ground (arith, collapse_of_collapsed true t, collapse_of_collapsed false t)

trim_start-is_collapsed :
    (b : Bool) (t : Text) → is_collapsed b t ≡ true → is_collapsed false (trim_start t) ≡ true
unfolding trim_start
trim_start-is_collapsed b [] h = refl
trim_start-is_collapsed b (c ∷ t) h = ground (arith, trim_start-is_collapsed true t)

trim_end-is_collapsed :
    (b : Bool) (t : Text) → is_collapsed b t ≡ true → is_collapsed b (trim_end t) ≡ true
unfolding trim_end
trim_end-is_collapsed b [] h = refl
trim_end-is_collapsed b (c ∷ t) h =
    ground (arith, trim_end-is_collapsed true t, trim_end-is_collapsed false t)

trim-is_collapsed : (t : Text) → is_collapsed false t ≡ true → is_collapsed false (trim t) ≡ true
unfolding trim
trim-is_collapsed t h =
    trim_end-is_collapsed false (trim_start t) (trim_start-is_collapsed false t h)

-- The last code unit is there and no white space.
abbrev pub ends : Text → Bool
ends [] = false
ends (c ∷ []) = not (is_space c)
ends (c ∷ (x ∷ t)) = ends (x ∷ t)

ends-cons : (c : ℕ) (u : Text) → ends u ≡ true → ends (c ∷ u) ≡ true
ends-cons c [] h = absurd (cc)
ends-cons c (x ∷ u) h = h

Text-cases : (u : Text) → (u ≡ []) ⊎ (is_empty u ≡ false)
Text-cases [] = inl refl
Text-cases (c ∷ u) = inr refl

ends-trim_end : (t : Text) → is_empty (trim_end t) ≡ false → ends (trim_end t) ≡ true
unfolding trim_end
ends-trim_end [] h = absurd (cc)
ends-trim_end (c ∷ t) h = elim (Text-cases (trim_end t)) [
  | inl none_left ↦ elim (Bool-cases (is_space c)) [
    | inl space ↦ let h' = rw (space, trim_end, none_left) at h in absurd (cc)
    | inr other ↦ rw (other, trim_end, none_left, other) refl
  ]
  | inr left ↦ elim (Bool-cases (is_space c)) [
    | inl space ↦ rw (space, trim_end, left) (ends-cons c (trim_end t) (ends-trim_end t left))
    | inr other ↦ rw (other, trim_end) (ends-cons c (trim_end t) (ends-trim_end t left))
  ]
]

is_collapsed-append :
    (b : Bool) (t s : Text)
    → ends t ≡ true
    → is_collapsed b t ≡ true
    → is_collapsed false s ≡ true
    → is_collapsed b (t ++ s) ≡ true
is_collapsed-append b [] s e h k = absurd (cc)
is_collapsed-append b (c ∷ []) s e h k = ground arith
is_collapsed-append b (c ∷ (x ∷ t)) s e h k =
    let spaced = is_collapsed-append true (x ∷ t) s e in
    let other = is_collapsed-append false (x ∷ t) s e in ground (arith, spaced, other)

is_empty-append : (t s : Text) → is_empty s ≡ false → is_empty (t ++ s) ≡ false
is_empty-append [] s n = n
is_empty-append (c ∷ t) s n = refl

trim_end-append : (t s : Text) → trim_end s ≡ s → is_empty s ≡ false → trim_end (t ++ s) ≡ t ++ s
unfolding trim_end
trim_end-append [] s e n = e
trim_end-append (c ∷ t) s e n =
    let filled = is_empty-append t s n in rw (trim_end-append t s e n) (ground arith)

-- A text that `branchTitle` would not tidy.
record IsTitle (u : Text) : Type 0 where
  collapsed : is_collapsed false u ≡ true
  starts : Starts u
  trims : trim_end u ≡ u
  filled : is_empty u ≡ false

suffix_tidy : (is_collapsed false branch_suffix ≡ true) × (trim_end branch_suffix ≡ branch_suffix)
unfolding trim_end is_space
suffix_tidy = (refl, refl)

drop_append : (t s : Text) → drop (length t) (t ++ s) ≡ s
drop_append [] s = refl
drop_append (c ∷ t) s = drop_append t s

ends_with-append : (t s : Text) → ends_with (t ++ s) s ≡ true
unfolding ends_with
ends_with-append t s =
    let cut : length (t ++ s) - length s ≡ length t = omega (arith, length-append t s) in
    let long : leb (length s) (length (t ++ s)) ≡ true = ground (arith, length-append t s) in
    rw (long, cut, drop_append t s) (same_text_refl s)

ends_of_IsTitle : (u : Text) → trim_end u ≡ u → is_empty u ≡ false → ends u ≡ true
ends_of_IsTitle u e n = rw (sym e) (ends-trim_end u (rw e n))

Starts-append : (t s : Text) → is_empty t ≡ false → Starts t → Starts (t ++ s)
Starts-append [] s n h = absurd (cc)
Starts-append (c ∷ t) s n h = h

IsTitle-append : (u : Text) → IsTitle u → IsTitle (u ++ branch_suffix)
IsTitle-append u p = record {
  collapsed =
      is_collapsed-append false u branch_suffix (ends_of_IsTitle u p.trims p.filled) p.collapsed
        suffix_tidy.0;
  starts = Starts-append u branch_suffix p.filled p.starts;
  trims = trim_end-append u branch_suffix suffix_tidy.1 refl;
  filled = is_empty-append u branch_suffix refl;
}

tidied-IsTitle :
    (t : Text) → is_empty (trim (collapse false t)) ≡ false → IsTitle (trim (collapse false t))
unfolding trim
tidied-IsTitle t n = record {
  collapsed = trim-is_collapsed (collapse false t) (collapse-is_collapsed false t);
  starts = trim_end-Starts (trim_start (collapse false t)) (trim_start-Starts (collapse false t));
  trims = trim_end_idem (trim_start (collapse false t));
  filled = n;
}

or_text_filled : (t empty : Text) → is_empty t ≡ false → or_text t empty ≡ t
or_text_filled [] empty n = absurd (cc)
or_text_filled (c ∷ t) empty n = refl

tidied_of_IsTitle : (u : Text) → IsTitle u → trim (collapse false u) ≡ u
unfolding trim
tidied_of_IsTitle u p =
    rw (collapse_of_collapsed false u p.collapsed, trim_start_of_Starts u p.starts) p.trims

base-IsTitle : (t empty : Text) → IsTitle empty → IsTitle (or_text (trim (collapse false t)) empty)
base-IsTitle t empty p = elim (Text-cases (trim (collapse false t))) [
  | inl blank ↦ rw blank p
  | inr filled ↦
      rw (or_text_filled (trim (collapse false t)) empty filled) (tidied-IsTitle t filled)
]

branch_title-IsTitle :
    (t empty : Text)
    → IsTitle empty
    → IsTitle (branch_title t empty) × (ends_with (branch_title t empty) branch_suffix ≡ true)
unfolding branch_title
branch_title-IsTitle t empty p =
    elim (Bool-cases (ends_with (or_text (trim (collapse false t)) empty) branch_suffix)) [
      | inl marked ↦ rw (marked) (base-IsTitle t empty p, marked)
      | inr plain ↦ rw (plain) (
        IsTitle-append (or_text (trim (collapse false t)) empty) (base-IsTitle t empty p),
        ends_with-append (or_text (trim (collapse false t)) empty) branch_suffix,
      )
    ]

title_again :
    (u other : Text) → IsTitle u → ends_with u branch_suffix ≡ true → branch_title u other ≡ u
unfolding branch_title
title_again u other p e = rw (tidied_of_IsTitle u p, or_text_filled u other p.filled, e)

-- With a default title that is tidy and not empty, a branch title ends with the suffix, and the
-- title of a branch of that branch is the same.
pub branch_title-again :
    (title empty other : Text)
    → trim (collapse false empty) ≡ empty
    → empty ≢ []
    → (ends_with (branch_title title empty) branch_suffix ≡ true)
      × (branch_title (branch_title title empty) other ≡ branch_title title empty)
branch_title-again title empty other tidy filled =
    let p : IsTitle empty = elim (Text-cases empty) [
      | inl blank ↦ absurd (filled blank)
      | inr f ↦ subst IsTitle tidy (tidied-IsTitle empty (rw tidy f))
    ] in
    let (q, e) = branch_title-IsTitle title empty p in
    (e, title_again (branch_title title empty) other q e)
