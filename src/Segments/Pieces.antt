-- ===== src/Segments/Pieces.antt =====
-- What a piece of a text is.
use codeberg.Base.{
  ℕ, zero, suc, ◌+◌, ◌≤◌, ◌<◌, ◌≡◌, ◌⊎◌, inl, inr, ◌==◌, if◌then◌else◌, true, false, none, some, [],
  ◌∷◌, ◌++◌, length, take, drop, arith, refl, ap, Bool-cases, Option-cases, length-append,
  length-take,
}
use codeberg.Text.{Text}
use codeberg.Segments.{TextSegment, max_segment_chars, safe_cut, newline_at, strip_return, cut_of}

-- What a segment says of the text that it stands for.
pub data Reads : Text → TextSegment → Type 0 where
  line :
      {l k : ℕ} {t : Text}
      → length t ≤ max_segment_chars
      → Reads (t ++ 10 ∷ []) (record { line = l; column = k; text = t; end = true })
  line_return :
      {l k : ℕ} {t : Text}
      → length t < max_segment_chars
      → Reads (t ++ 13 ∷ (10 ∷ [])) (record { line = l; column = k; text = t; end = true })
  piece :
      {l k : ℕ} {t : Text}
      → 0 < length t
      → length t ≤ max_segment_chars
      → newline_at t ≡ none
      → Reads t (record { line = l; column = k; text = t; end = false })

pub newline_found : (t : Text) (i : ℕ) → newline_at t ≡ some i → t ≡ take i t ++ 10 ∷ drop (suc i) t
unfolding newline_at
newline_found [] i e = absurd (cc)
newline_found (c ∷ t) i e = elim (Bool-cases (c == 10)) [
  | inl newline ↦
      let e' = rw (newline, newline_at) at e in
      let first : 0 ≡ i = cc in let is : c ≡ 10 = ground arith in rw (← first, is) refl
  | inr other ↦ elim (Option-cases (newline_at t)) [
    | inl missing ↦ let e' = rw (other, newline_at, missing) at e in absurd (cc)
    | inr (k, found) ↦
        let e' = rw (other, newline_at, found) at e in
        let at : suc k ≡ i = cc in rw (← at) (ap (λ l. c ∷ l) (newline_found t k found))
  ]
]

pub strip-cases : (t : Text) → (strip_return t ≡ t) ⊎ (t ≡ strip_return t ++ 13 ∷ [])
unfolding strip_return
strip-cases [] = inl refl
strip-cases (c ∷ []) = elim (Bool-cases (c == 13)) [
  | inl is ↦ let same : c ≡ 13 = ground arith in inr (rw (is, same) refl)
  | inr other ↦ inl (rw other refl)
]
strip-cases (c ∷ (d ∷ t)) = elim (strip-cases (d ∷ t)) [
  | inl same ↦ inl (ap (λ l. c ∷ l) same)
  | inr stripped ↦ inr (ap (λ l. c ∷ l) stripped)
]

pub cut-bounds :
    (t : Text) → max_segment_chars < length t → (0 < cut_of t) × (cut_of t ≤ max_segment_chars)
unfolding cut_of safe_cut
cut-bounds t h = (ground arith, ground arith)

-- A prefix before the first newline has none.
pub none_before :
    (n : ℕ) (t : Text)
    → newline_at (take n t) ≡ none ⊎ ((i : ℕ) × (newline_at t ≡ some i) × (i < n))
unfolding newline_at
none_before zero t = inl refl
none_before (suc n) [] = inl refl
none_before (suc n) (c ∷ t) = elim (Bool-cases (c == 10)) [
  | inl newline ↦ inr (0, rw newline refl, omega arith)
  | inr other ↦ elim (none_before n t) [
    | inl missing ↦ inl (rw (other, missing) refl)
    | inr (i, found, below) ↦ inr (suc i, rw (other, found) refl, omega arith)
  ]
]

pub none_up_to :
    (i : ℕ) (t : Text) → newline_at t ≡ some i → (n : ℕ) → n ≤ i → newline_at (take n t) ≡ none
none_up_to i t e n h = elim (none_before n t) [
  | inl missing ↦ missing
  | inr (k, found, below) ↦ let same : k ≡ i = cc in absurd (omega arith)
]

pub none_in_part : (n : ℕ) (t : Text) → newline_at t ≡ none → newline_at (take n t) ≡ none
none_in_part n t e = elim (none_before n t) [
  | inl missing ↦ missing
  | inr (k, found, below) ↦ absurd (cc)
]

pub newline_below : (t : Text) (i : ℕ) → newline_at t ≡ some i → i < length t
newline_below t i e =
    let parted = ap length (newline_found t i e) in
    let sizes = length-append (take i t) (10 ∷ drop (suc i) t) in
    let front = length-take i t in omega arith

-- Positions in a text: lines end with a newline, and columns count from 1.
unfoldable pub newlines : Text → ℕ
newlines [] = 0
newlines (c ∷ t) = if c == 10 then suc (newlines t) else newlines t

unfoldable pub column_after : ℕ → Text → ℕ
column_after k [] = k
column_after k (c ∷ t) = column_after (if c == 10 then 1 else suc k) t

pub newlines-append : (s t : Text) → newlines (s ++ t) ≡ newlines s + newlines t
unfolding newlines
newlines-append [] t = omega arith
newlines-append (c ∷ s) t = ground (arith, newlines-append s t)

pub column_after-append :
    (k : ℕ) (s t : Text) → column_after k (s ++ t) ≡ column_after (column_after k s) t
unfolding column_after
column_after-append k [] t = refl
column_after-append k (c ∷ s) t = column_after-append (if c == 10 then 1 else suc k) s t

pub newlines-none : (t : Text) → newline_at t ≡ none → newlines t ≡ 0
unfolding newline_at newlines
newlines-none [] e = refl
newlines-none (c ∷ t) e = elim (Bool-cases (c == 10)) [
  | inl newline ↦ let e' = rw newline at e in absurd (cc)
  | inr other ↦ elim (Option-cases (newline_at t)) [
    | inl missing ↦ rw other (newlines-none t missing)
    | inr (k, found) ↦ let e' = rw (other, found) at e in absurd (cc)
  ]
]

pub column_none : (k : ℕ) (t : Text) → newline_at t ≡ none → column_after k t ≡ k + length t
unfolding newline_at column_after
column_none k [] e = omega arith
column_none k (c ∷ t) e = elim (Bool-cases (c == 10)) [
  | inl newline ↦ let e' = rw newline at e in absurd (cc)
  | inr other ↦ elim (Option-cases (newline_at t)) [
    | inl missing ↦ rw other (omega (arith, column_none (suc k) t missing))
    | inr (j, found) ↦ let e' = rw (other, found) at e in absurd (cc)
  ]
]
