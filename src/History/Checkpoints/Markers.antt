-- ===== src/History/Checkpoints/Markers.antt =====
-- Every marker that a fitted chat starts with is one that a checkpoint may have.
use codeberg.Base.{
  ℕ, zero, suc, ◌/◌, ◌%◌, ◌<◌, ◌≡◌, inl, inr, ltb, ◌||◌, Bool, true, false, Option, none, some,
  List, [], ◌∷◌, ◌++◌, arith, refl, sym, subst, Bool-cases,
}
use mathlib.Core.List.{append_assoc}
use codeberg.Text.{Text, codes, strip_prefix, starts_with}
use codeberg.History.Fit.{digit, decimal_from, decimal, omission_text, file_block, history_marker}
use codeberg.History.Checkpoints.{
  is_digit, skip_digits, starts_with_digit, after_bracket, is_omission, is_marker,
}

digit-is_digit : (n : ℕ) → n < 10 → is_digit (digit n) ≡ true
digit-is_digit n h = ground arith

skip-decimal_from :
    (fuel n : ℕ) (out rest : Text)
    → skip_digits (decimal_from fuel n out ++ rest) ≡ skip_digits (out ++ rest)
unfolding decimal_from skip_digits
skip-decimal_from zero n out rest = refl
skip-decimal_from (suc fuel) n out rest = elim (Bool-cases (ltb n 10)) [
  | inl small ↦ rw (small, decimal_from, digit-is_digit n (ground arith), skip_digits) refl
  | inr more ↦
      let first : is_digit (digit (n % 10)) ≡ true = digit-is_digit (n % 10) (omega arith) in
      rw (more, decimal_from, skip-decimal_from fuel (n / 10) (digit (n % 10) ∷ out) rest, first)
        refl
]

starts-decimal_from :
    (fuel n : ℕ) (out rest : Text)
    → starts_with_digit (out ++ rest) ≡ true
    → starts_with_digit (decimal_from fuel n out ++ rest) ≡ true
unfolding decimal_from
starts-decimal_from zero n out rest h = h
starts-decimal_from (suc fuel) n out rest h = elim (Bool-cases (ltb n 10)) [
  | inl small ↦ rw (small, decimal_from) (digit-is_digit n (ground arith))
  | inr more ↦
      rw (more, decimal_from)
        (starts-decimal_from fuel (n / 10) (digit (n % 10) ∷ out) rest
          (digit-is_digit (n % 10) (omega arith)))
]

starts-decimal : (n : ℕ) (rest : Text) → starts_with_digit (decimal n ++ rest) ≡ true
unfolding decimal decimal_from
starts-decimal n rest = elim (Bool-cases (ltb n 10)) [
  | inl small ↦ rw (small, decimal_from) (digit-is_digit n (ground arith))
  | inr more ↦
      rw (more, decimal_from)
        (starts-decimal_from n (n / 10) (digit (n % 10) ∷ []) rest
          (digit-is_digit (n % 10) (omega arith)))
]

bracketed :
    (n : ℕ) (rest : Text)
    → starts_with (skip_digits rest) (codes " earlier message(s) omitted") ≡ true
    → after_bracket (some (decimal n ++ rest)) ≡ true
unfolding decimal
bracketed n rest h = rw (starts-decimal n rest, skip-decimal_from (suc n) n [] rest, h) refl

omission-is_omission : (n : ℕ) (rest : Text) → is_omission (omission_text n ++ rest) ≡ true
unfolding is_omission strip_prefix skip_digits
omission-is_omission n rest =
    subst (λ t. after_bracket (some t) ≡ true)
      (sym (
        append_assoc (decimal n) (codes " earlier message(s) omitted to fit the context window]")
          rest))
      (bracketed n (codes " earlier message(s) omitted to fit the context window]" ++ rest) refl)

pub history_marker-is_marker :
    (s : Option Text) (omitted : ℕ) (files : List Text)
    → is_marker (some (history_marker s omitted files).text) ≡ true
unfolding history_marker strip_prefix
history_marker-is_marker (some s) omitted files = refl
history_marker-is_marker none omitted files = rw (omission-is_omission omitted (file_block files)) (
    or_true
      (starts_with (omission_text omitted ++ file_block files) (codes "<conversation_summary>")))
  where
    or_true : (b : Bool) → (b || true) ≡ true
    or_true true = refl
    or_true false = refl
