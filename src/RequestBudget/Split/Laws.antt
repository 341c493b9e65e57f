-- ===== src/RequestBudget/Split/Laws.antt =====
-- A split takes the body of a request apart and loses nothing.
use codeberg.Base.{
  ℕ, zero, suc, ◌+◌, ◌≤◌, ◌<◌, ◌≡◌, ◌⊎◌, inl, inr, ltb, leb, true, Option, none, some, List, [],
  ◌∷◌, ◌++◌, length, take, drop, arith, refl, sym, ap, ◌∙◌, Bool-cases, Option-cases, length-drop,
  length-take, take-append-drop,
}
use codeberg.RequestBudget.Estimate.{Role, user, assistant, same_role, Message, messages_tokens}
use codeberg.RequestBudget.Split.{Split, last_role, from_user, around_user, split_at, split_request}

-- The messages from a position on are kept.
pub record IsSuffix (body : List Message) (split : Split) : Type 0 where
  pub parted : body ≡ split.older ++ split.recent
  pub ends : split.tail ≡ length split.recent
  pub none_kept : split.preserve ≡ none

-- A user message and the messages from a later position on are kept.
pub record IsAround (body : List Message) (split : Split) : Type 0 where
  pub before : List Message
  pub kept : Message
  pub between : List Message
  pub after : List Message
  pub parted : body ≡ before ++ kept ∷ (between ++ after)
  pub is_user : same_role kept.role user ≡ true
  pub older_lem : split.older ≡ before ++ between
  pub recent_lem : split.recent ≡ kept ∷ after
  pub ends : split.tail ≡ length after
  pub kept_at : split.preserve ≡ some (length before)

found_at :
    (role : Role) (body : List Message) (i : ℕ)
    → last_role role body ≡ some i
    → (u : Message) × (drop i body ≡ u ∷ drop (suc i) body)
      × (same_role u.role role ≡ true)
      × (i < length body)
unfolding last_role
found_at role [] i e = absurd (cc)
found_at role (message ∷ rest) i e = elim (Option-cases (last_role role rest)) [
  | inr (k, found) ↦
      let at : suc k ≡ i = ground arith in
      let (u, dropped, is_role, below) = found_at role rest k found in
      rw (← at) (u, dropped, is_role, omega arith)
  | inl missing ↦ elim (Bool-cases (same_role message.role role)) [
    | inr other ↦ let e' = rw (missing, other) at e in absurd (cc)
    | inl same ↦
        let e' = rw (missing, same) at e in
        let at : 0 ≡ i = cc in rw (← at) (message, refl, same, omega arith)
  ]
]

drop-take :
    (m j : ℕ) (body : List Message) → m ≤ j → drop m body ≡ drop m (take j body) ++ drop j body
drop-take zero j body h = sym (take-append-drop j body)
drop-take (suc m) zero body h = absurd (omega arith)
drop-take (suc m) (suc j) [] h = refl
drop-take (suc m) (suc j) (x ∷ body) h = drop-take m j body (omega arith)

from_user-IsSuffix : (i : ℕ) (body : List Message) → IsSuffix body (from_user i body)
from_user-IsSuffix i body = record {
  parted = sym (take-append-drop i body);
  ends = refl;
  none_kept = refl;
}

around_user-IsAround :
    (i j : ℕ) (body : List Message)
    → last_role user body ≡ some i
    → i < j
    → IsAround body (around_user i j body)
around_user-IsAround i j body e h =
    let (u, dropped, is_role, below) = found_at user body i e in
    record {
      before = take i body;
      kept = u;
      between = drop (suc i) (take j body);
      after = drop j body;
      parted =
          sym (take-append-drop i body)
          ∙ ap (λ x. take i body ++ x)
              (dropped ∙ ap (λ x. u ∷ x) (drop-take (suc i) j body (omega arith)));
      is_user = is_role;
      older_lem = refl;
      recent_lem = rw dropped refl;
      ends = omega (arith, length-drop j body);
      kept_at = ap some (omega (arith, length-take i body));
    }

pub split_request-cases :
    (body : List Message) (allowance : ℕ)
    → ((split_request body allowance).older ≡ [])
      ⊎ (IsSuffix body (split_request body allowance)
          ⊎ IsAround body (split_request body allowance))
unfolding split_request split_at
split_request-cases body allowance = elim (Option-cases (last_role user body)) [
  | inl no_user ↦ inl (rw (no_user, split_request) refl)
  | inr (i, found) ↦
      inr (rw (found, split_request) (split_at-cases i (last_role assistant body) found))
]
  where
    split_at-cases :
        (i : ℕ) (j : Option ℕ)
        → last_role user body ≡ some i
        → IsSuffix body (split_at i j body allowance) ⊎ IsAround body (split_at i j body allowance)
    split_at-cases i none found = inl (from_user-IsSuffix i body)
    split_at-cases i (some j) found =
        elim (Bool-cases (ltb (messages_tokens (drop i body) + 128) allowance)) [
          | inl fits ↦ rw fits (inl (from_user-IsSuffix i body))
          | inr long ↦ elim (Bool-cases (leb j i)) [
            | inl earlier ↦ rw (long, earlier) (inl (from_user-IsSuffix i body))
            | inr after ↦
                rw (long, after) (inr (around_user-IsAround i j body found (ground arith)))
          ]
        ]
