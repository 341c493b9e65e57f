-- ===== src/RequestBudget/Checkpoints/Systems.antt =====
-- The system messages of a prompt, and positions in a prompt that starts with them.
use codeberg.Base.{
  ℕ, zero, suc, ◌+◌, ◌<◌, ◌≡◌, inl, inr, Bool, true, false, some, List, [], ◌∷◌, ◌++◌, length, take,
  drop, get_elem?, keep_if, arith, refl, sym, ap, ◌∙◌, Bool-cases,
}
use mathlib.Core.List.{append-nil}
use codeberg.RequestBudget.Estimate.{Message}
use codeberg.RequestBudget.Compact.{is_system, is_body, all_system, prompt_index}

module _ {ℓ} {A : Type ℓ} where
  pub take-length : (xs ys : List A) → take (length xs) (xs ++ ys) ≡ xs
  take-length [] ys = refl
  take-length (x ∷ xs) ys = ap (λ l. x ∷ l) (take-length xs ys)

  pub drop-length : (xs ys : List A) → drop (length xs) (xs ++ ys) ≡ ys
  drop-length [] ys = refl
  drop-length (x ∷ xs) ys = drop-length xs ys

  keep_if-append :
      (p : A → Bool) (xs ys : List A) → keep_if p (xs ++ ys) ≡ keep_if p xs ++ keep_if p ys
  keep_if-append p [] ys = refl
  keep_if-append p (x ∷ xs) ys = ground (arith, keep_if-append p xs ys)

  pub get_elem?-at :
      (xs : List A) (y : A) (ys : List A) → get_elem? (xs ++ y ∷ ys) (length xs) ≡ some y
  get_elem?-at [] y ys = refl
  get_elem?-at (x ∷ xs) y ys = get_elem?-at xs y ys

-- Systems first, then the others.
pub keep_of_all : (s : List Message) → all_system s ≡ true → keep_if is_system s ≡ s
unfolding all_system
keep_of_all [] h = refl
keep_of_all (m ∷ s) h = ground (arith, keep_of_all s)

pub all_system-keep_if : (p : List Message) → all_system (keep_if is_system p) ≡ true
unfolding all_system
all_system-keep_if [] = refl
all_system-keep_if (m ∷ p) = ground (arith, all_system-keep_if p)

pub none_of_body : (p : List Message) → keep_if is_system (keep_if is_body p) ≡ []
none_of_body [] = refl
none_of_body (m ∷ p) = ground (arith, none_of_body p)

no_systems : (p : List Message) → keep_if is_system p ≡ [] → keep_if is_body p ≡ p
no_systems [] h = refl
no_systems (m ∷ p) h = ground (arith, no_systems p)

-- Where the first is no system message, none is.
other_first :
    (m : Message) (p l : List Message)
    → is_system m ≡ false
    → keep_if is_system p ≡ l
    → all_system (take (length l) (m ∷ p)) ≡ true
    → m ∷ p ≡ l ++ m ∷ keep_if is_body p
unfolding all_system
other_first m p [] o e h = ap (λ t. m ∷ t) (sym (no_systems p e))
other_first m p (x ∷ l) o e h = absurd (ground arith)

pub system_first :
    (p : List Message)
    → all_system (take (length (keep_if is_system p)) p) ≡ true
    → p ≡ keep_if is_system p ++ keep_if is_body p
unfolding all_system
system_first [] h = refl
system_first (m ∷ p) h = elim (Bool-cases (is_system m)) [
  | inl system ↦ rw system (ap (λ l. m ∷ l) (system_first p (ground arith)))
  | inr other ↦ rw other (other_first m p (keep_if is_system p) other refl (ground arith))
]

index_in_body :
    (i : ℕ) (b : List Message) → keep_if is_system b ≡ [] → i < length b → prompt_index i b ≡ i
unfolding prompt_index
index_in_body i [] h k = absurd (omega arith)
index_in_body zero (m ∷ b) h k = ground arith
index_in_body (suc i) (m ∷ b) h k =
    let ih = index_in_body i b (ground arith) (omega arith) in ground arith

pub index_after :
    (i : ℕ) (s b : List Message)
    → all_system s ≡ true
    → keep_if is_system b ≡ []
    → i < length b
    → prompt_index i (s ++ b) ≡ length s + i
unfolding prompt_index all_system
index_after i [] b h n k = omega (arith, index_in_body i b n k)
index_after zero (m ∷ s) b h n k = let ih = index_after zero s b (ground arith) n k in ground arith
index_after (suc i) (m ∷ s) b h n k =
    let ih = index_after (suc i) s b (ground arith) n k in ground arith

pub systems_of :
    (s b : List Message)
    → all_system s ≡ true
    → keep_if is_system b ≡ []
    → keep_if is_system (s ++ b) ≡ s
systems_of s b h n =
    keep_if-append is_system s b
    ∙ ap (λ x. x ++ keep_if is_system b) (keep_of_all s h)
    ∙ ap (λ x. s ++ x) n
    ∙ append-nil s

pub no_systems_left :
    (a b : List Message) → keep_if is_system (a ++ b) ≡ [] → keep_if is_system a ≡ []
no_systems_left [] b h = refl
no_systems_left (m ∷ a) b h = ground (arith, no_systems_left a b)
