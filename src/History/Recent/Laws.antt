-- ===== src/History/Recent/Laws.antt =====
-- The recent history is whole exchanges, as many as the allowance holds, and at least the last.
use codeberg.Base.{
  take-append-drop, ℕ, zero, suc, ◌+◌, ◌-◌, ◌≤◌, ◌<◌, ◌==◌, ◌≡◌, ◌≢◌, ◌⊎◌, inl, inr, true, false,
  none, some, List, [], ◌∷◌, ◌++◌, length, take, drop, min, max, get_elem?, arith, refl, Bool-cases,
  ap, sym, ◌∙◌,
}
use codeberg.History.Messages.{ModelMessage, total_tokens}
use codeberg.History.Recent.{
  slice, is_user, exchange_start, allowance, recent_from, recent_history_start,
}

-- An index at which an exchange starts, or the start of all.
abbrev pub StartsExchange : List ModelMessage → ℕ → Type 0
StartsExchange messages s = (s ≡ 0) ⊎ (is_user (get_elem? messages s) ≡ true)

pub exchange_start-le :
    (messages : List ModelMessage) (from : ℕ) → exchange_start messages from ≤ from
unfolding exchange_start
exchange_start-le messages zero = omega arith
exchange_start-le messages (suc i) = ground (arith, exchange_start-le messages i)

pub exchange_start-StartsExchange :
    (messages : List ModelMessage) (from : ℕ)
    → StartsExchange messages (exchange_start messages from)
unfolding exchange_start
exchange_start-StartsExchange messages zero = inl refl
exchange_start-StartsExchange messages (suc i) =
    ground (arith, exchange_start-StartsExchange messages i)

-- Nothing between the start of the exchange and `from` starts another.
pub exchange_start-last :
    (messages : List ModelMessage) (from i : ℕ)
    → exchange_start messages from < i
    → i ≤ from
    → is_user (get_elem? messages i) ≡ false
unfolding exchange_start
exchange_start-last messages zero i a b = absurd (omega arith)
exchange_start-last messages (suc from) i a b =
    elim (Bool-cases (is_user (get_elem? messages (suc from)))) [
      | inl here ↦ absurd (ground arith)
      | inr other ↦ elim (Bool-cases (i == suc from)) [
        | inl same ↦ let e : i ≡ suc from = ground arith in rw e other
        | inr less ↦ exchange_start-last messages from i (ground arith) (ground arith)
      ]
    ]

total_tokens-append :
    (l m : List ModelMessage) → total_tokens (l ++ m) ≡ total_tokens l + total_tokens m
unfolding total_tokens
total_tokens-append [] m = omega arith
total_tokens-append (x ∷ l) m = omega (arith, total_tokens-append l m)

tokens-slice :
    (a b : ℕ) (l : List ModelMessage)
    → a ≤ b
    → total_tokens (take b l) ≡ total_tokens (take a l) + total_tokens (slice a b l)
unfolding total_tokens
tokens-slice zero b l h = omega arith
tokens-slice (suc a) zero l h = absurd (omega arith)
tokens-slice (suc a) (suc b) [] h = omega arith
tokens-slice (suc a) (suc b) (x ∷ l) h = omega (arith, tokens-slice a b l (omega arith))

-- The estimated size of the messages before an index, and from it on.
abbrev pub tokens_before : List ModelMessage → ℕ → ℕ
tokens_before messages s = total_tokens (take s messages)

abbrev pub tokens_from : List ModelMessage → ℕ → ℕ
tokens_from messages s = total_tokens (drop s messages)

tokens_from_lem :
    (messages : List ModelMessage) (s : ℕ)
    → tokens_before messages s + tokens_from messages s ≡ total_tokens messages
tokens_from_lem messages s =
    sym (total_tokens-append (take s messages) (drop s messages))
    ∙ ap total_tokens (take-append-drop s messages)

-- The start of the exchange before the one that starts at `s`.
abbrev pub previous_start : List ModelMessage → ℕ → ℕ
previous_start messages zero = 0
previous_start messages (suc before) = exchange_start messages before

-- What `recentHistoryStart` promises of its result under a limit on the estimated size.
pub record IsRecentStart (messages : List ModelMessage) (limit r : ℕ) : Type 0 where
  pub starts : StartsExchange messages r
  pub keeps_last : r < length messages
  pub fits : (r ≡ previous_start messages (length messages)) ⊎ (tokens_from messages r ≤ limit)
  pub greedy : (r ≡ 0) ⊎ (limit < tokens_from messages (previous_start messages r))

module _ (messages : List ModelMessage) (limit : ℕ) where
  -- What the next exchange back adds.
  tokens_from-previous :
      (before : ℕ)
      → tokens_from messages (exchange_start messages before)
        ≡ tokens_from messages (suc before)
          + total_tokens (slice (exchange_start messages before) (suc before) messages)
  tokens_from-previous before = omega (
    arith,
    tokens_from_lem messages (suc before),
    tokens_from_lem messages (exchange_start messages before),
    tokens-slice (exchange_start messages before) (suc before) messages
        (omega (arith, exchange_start-le messages before)),
  )

  recent_from-stop :
      (fuel before tokens : ℕ)
      → suc before < length messages
      → limit < tokens + total_tokens (slice (exchange_start messages before) (suc before) messages)
      → recent_from messages limit (suc fuel) (suc before) tokens ≡ suc before
  unfolding recent_from
  recent_from-stop fuel before tokens h k = ground arith

  recent_from-next :
      (fuel before tokens : ℕ)
      → (length messages ≤ suc before)
        ⊎ (tokens + total_tokens (slice (exchange_start messages before) (suc before) messages)
            ≤ limit)
      → recent_from messages limit (suc fuel) (suc before) tokens
        ≡ recent_from messages limit fuel
            (exchange_start messages before)
            (tokens + total_tokens (slice (exchange_start messages before) (suc before) messages))
  unfolding recent_from
  recent_from-next fuel before tokens h = ground arith

  le_cases : (a b : ℕ) → (a < b) ⊎ (b ≤ a)
  le_cases a b = grind arith

  recent_from_lem :
      (fuel start tokens : ℕ)
      → start ≤ fuel
      → start < length messages
      → tokens ≡ tokens_from messages start
      → StartsExchange messages start
      → (start ≡ previous_start messages (length messages)) ⊎ (tokens ≤ limit)
      → IsRecentStart messages limit (recent_from messages limit fuel start tokens)
  unfolding recent_from
  recent_from_lem zero start tokens f lt t s h = record {
    starts = s;
    keeps_last = lt;
    fits = ground arith;
    greedy = inl (omega arith);
  }
  recent_from_lem (suc fuel) zero tokens f lt t s h = record {
    starts = s;
    keeps_last = lt;
    fits = ground arith;
    greedy = inl refl;
  }
  recent_from_lem (suc fuel) (suc before) tokens f lt t s h =
      let previous = exchange_start messages before in
      let size = total_tokens (slice previous (suc before) messages) in
      elim (le_cases limit (tokens + size)) [
        | inl over ↦ rw (recent_from-stop fuel before tokens lt over) (record {
          starts = s;
          keeps_last = lt;
          fits = ground arith;
          greedy = inr (omega (arith, tokens_from-previous before));
        })
        | inr fits ↦ rw (recent_from-next fuel before tokens (inr fits)) (
            recent_from_lem fuel previous (tokens + size)
              (omega (arith, exchange_start-le messages before))
              (omega (arith, exchange_start-le messages before))
              (omega (arith, tokens_from-previous before))
              (exchange_start-StartsExchange messages before) (inr fits))
      ]

  take-length : (l : List ModelMessage) → take (length l) l ≡ l
  take-length [] = refl
  take-length (x ∷ l) = rw (take-length l)

  -- The last exchange is taken whatever its size.
  first_round :
      (before : ℕ)
      → suc before ≡ length messages
      → IsRecentStart messages limit (recent_from messages limit (suc before) (suc before) 0)
  first_round before e =
      let previous = exchange_start messages before in
      let all : total_tokens (take (suc before) messages) ≡ total_tokens messages =
        ap (λ n. total_tokens (take n messages)) e ∙ ap total_tokens (take-length messages) in
      rw (recent_from-next before before 0 (inl (omega arith))) (
        recent_from_lem before previous (0 + total_tokens (slice previous (suc before) messages))
          (omega (arith, exchange_start-le messages before))
          (omega (arith, exchange_start-le messages before))
          (omega (arith, tokens_from-previous before, tokens_from_lem messages (suc before), all))
          (exchange_start-StartsExchange messages before) (inl (ap (previous_start messages) e)))

-- With no keepRecent, the recent part of a chat that is not empty starts at a user message or at
-- the beginning, is not empty, has an estimated size within the allowance unless it is the last
-- exchange alone, and with the exchange before it would exceed the allowance unless there is none.
pub recent_history_start-IsRecentStart :
    (messages : List ModelMessage) (budget : ℕ)
    → messages ≢ []
    → IsRecentStart messages (allowance budget) (recent_history_start messages budget none)
unfolding recent_history_start
recent_history_start-IsRecentStart [] budget h = absurd (h refl)
recent_history_start-IsRecentStart (x ∷ l) budget h =
    first_round (x ∷ l) (allowance budget) (length l) refl

-- With `keepRecent` given, the cut keeps at least that many messages, and at least one, and lies at
-- the start of an exchange, the last that starts early enough.
pub recent_history_start-keeps :
    (messages : List ModelMessage) (budget keep_recent i : ℕ)
    → let r = recent_history_start messages budget (some keep_recent) in
      StartsExchange messages r
      × (r + min (max 1 keep_recent) (length messages) ≤ length messages)
      × (r < i → i + max 1 keep_recent ≤ length messages → is_user (get_elem? messages i) ≡ false)
unfolding recent_history_start
recent_history_start-keeps messages budget keep_recent i = (
  exchange_start-StartsExchange messages (length messages - max 1 keep_recent),
  omega (arith, exchange_start-le messages (length messages - max 1 keep_recent)),
  λ a b. exchange_start-last messages (length messages - max 1 keep_recent) i a (omega arith),
)
