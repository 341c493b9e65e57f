-- ===== src/Prefixes/Laws.antt =====
-- Keys of prefixes, and what is found in a directory with one file.
use codeberg.Base.{
  ℕ, zero, suc, ◌+◌, ◌<◌, ◌≡◌, inl, inr, Bool, Option, some, List, [], ◌∷◌, ◌++◌, length, get_elem?,
  arith, refl, ap, subst, Bool-cases, Option-cases,
}
use codeberg.Text.{Text, same_text}
use codeberg.Text.Same.{same_text_refl}
use codeberg.Prefixes.{prefix_keys, read_file, check, load}

module _ {M : Type 0} (hash : Text → Text) (fingerprint : M → Text) where
  -- The key of a prefix does not depend on what follows it.
  pub keys-append :
      (i : ℕ) (previous : Text) (p more : List M)
      → i < length p
      → get_elem? (prefix_keys hash fingerprint previous (p ++ more)) i
        ≡ get_elem? (prefix_keys hash fingerprint previous p) i
  unfolding prefix_keys
  keys-append i previous [] more h = absurd (omega arith)
  keys-append zero previous (m ∷ p) more h = refl
  keys-append (suc i) previous (m ∷ p) more h =
      keys-append i (hash (previous ++ fingerprint m)) p more (omega arith)

  pub key_at :
      (i : ℕ) (previous : Text) (p : List M)
      → i < length p
      → (key : Text) × (get_elem? (prefix_keys hash fingerprint previous p) i ≡ some key)
  unfolding prefix_keys
  key_at i previous [] h = absurd (omega arith)
  key_at zero previous (m ∷ p) h = (hash (previous ++ fingerprint m), refl)
  key_at (suc i) previous (m ∷ p) h = key_at i (hash (previous ++ fingerprint m)) p (omega arith)

suc_shift : (a b : ℕ) → suc a + b ≡ a + suc b
suc_shift a b = omega arith

-- A directory with one file.
abbrev pub only : {A : Type 0} → Text → A → List (Text × Option A)
only key saved = (key, some saved) ∷ []

module _ {A : Type 0} (accepts : Text → ℕ → A → Bool) (key : Text) (saved : A) where
  check-only :
      (k : Text) (count : ℕ) (found : A)
      → check accepts k count (read_file k (only key saved)) ≡ some found
      → found ≡ saved
  unfolding check read_file
  check-only k count found e = elim (Bool-cases (same_text key k)) [
    | inr other ↦ let e' = rw other at e in absurd (cc)
    | inl same ↦
        let e' = rw same at e in
        elim (Bool-cases (accepts k count saved)) [
          | inr bad ↦ let e'' = rw bad at e' in absurd (cc)
          | inl good ↦ let e'' = rw good at e' in cc
        ]
  ]

  pub load-only :
      (count : ℕ) (keys : List Text) (found : A)
      → load accepts (only key saved) count keys ≡ some found
      → found ≡ saved
  unfolding load
  load-only count [] found e = absurd (cc)
  load-only count (k ∷ keys) found e =
      elim (Option-cases (load accepts (only key saved) (suc count) keys)) [
        | inr (longer, there_is) ↦
            let e' = rw (there_is, load) at e in
            let same : longer ≡ found = cc in
            rw (← same) (load-only (suc count) keys longer there_is)
        | inl missing ↦ check-only k count found (rw (missing, load) at e)
      ]

  pub load_found :
      (count n : ℕ) (keys : List Text)
      → get_elem? keys n ≡ some key
      → check accepts key (count + n) (some saved) ≡ some saved
      → load accepts (only key saved) count keys ≡ some saved
  unfolding load read_file
  load_found count n [] e h = absurd (cc)
  load_found count (suc n) (k ∷ keys) e h =
      let shifted : check accepts key (suc count + n) (some saved) ≡ some saved =
        rw (suc_shift count n) h in
      rw (load_found (suc count) n keys e shifted, load) refl
  load_found count zero (k ∷ keys) e h =
      elim (Option-cases (load accepts (only key saved) (suc count) keys)) [
        | inr (longer, there_is) ↦
            rw (there_is, load) (ap some (load-only (suc count) keys longer there_is))
        | inl missing ↦
            let same : k ≡ key = cc in
            let here : count + 0 ≡ count = omega arith in
            let h' : check accepts key count (some saved) ≡ some saved =
              subst (λ c. check accepts key c (some saved) ≡ some saved) here h in
            rw (missing, load, same, same_text_refl key) h'
      ]
