-- ===== src/RequestBudget/Retry.antt =====
-- Attempts with smaller and smaller budgets: `withBudgetRetry` of
-- agent/src/core/request-budget/retry.ts.
--
-- The shares of the window and the products that are rounded down are arguments, as doubles round
-- them. So are the estimate of `RequestUsage`, the call of the provider at each attempt, whether the
-- signal is aborted where it is read, and what compaction depends on at each attempt.
pub mod Bounds
use codeberg.Base.{
  ℕ, zero, suc, ◌+◌, ◌-◌, ◌==◌, ◌||◌, max, min, ltb, if◌then◌else◌, Bool, true, false, Option, none,
  some, List, [], ◌∷◌,
}
use codeberg.Text.{Text}
use codeberg.RequestBudget.Estimate.{Content, Message, Request, estimate_request}
use codeberg.RequestBudget.Compact.{
  Summary, Compaction, Outcome, compacted, over_budget, threw, fixed_tokens, compact_request,
}

pub data Reply (A : Type 0) : Type 0 where
  answered : A → Reply A
  -- The provider rejects the request as too long.
  overflow : Reply A
  failure : Reply A

pub data Result (A : Type 0) : Type 0 where
  returned : A → Result A
  over_context compaction_failed call_failed aborted : Result A

-- The requests that the provider was called with, and how it ended.
pub record Run (A : Type 0) : Type 0 where
  pub calls : List Request
  pub result : Result A

-- The signal at the start of an attempt, before its call and after its error.
pub record Aborts : Type 0 where
  pub at_start : Bool
  pub before_call : Bool
  pub after_error : Bool

-- What an attempt depends on.
pub record Attempt (A : Type 0) : Type 0 where
  pub aborts : Aborts
  pub write_history : Text → Option Text
  pub summarize : Text → ℕ → Summary
  pub call : Request → Reply A

abbrev pub reserve_of : Option ℕ → ℕ → ℕ
reserve_of none share = max 1 (min 8192 share)
reserve_of (some limit) share = max 1 (min limit share)

abbrev pub ceiling_of : ℕ → ℕ → ℕ
ceiling_of share completion = max 1 (share - completion)

abbrev pub stopped : {A : Type 0} → Result A → Run A
stopped r = record { calls = []; result = r }

abbrev pub called : {A : Type 0} → Request → Run A → Run A
called request run = record { calls = request ∷ run.calls; result = run.result }

-- `rejectedSize ||= estimateRequest(request)`
abbrev pub first_size : ℕ → Request → ℕ
first_size rejected request = if rejected == 0 then estimate_request request else rejected

abbrev pub next_target : ℕ → (ℕ → ℕ) → ℕ → Request → ℕ
next_target ceiling portion rejected request =
    min ceiling (fixed_tokens request + portion (rejected - fixed_tokens request))

module _ {A : Type 0} (canonical : Content → Text) (usage : Request → ℕ) where
  -- The request of an attempt: compacted after the first, or if it is estimated too large.
  unfoldable pub prepare : Attempt A → ℕ → ℕ → Request → Outcome
  prepare attempt n target request =
      if ltb target (usage request) || ltb 0 n
      then compact_request canonical attempt.write_history attempt.summarize request target
      else compacted (record { request = request; checkpoint = none })

  -- An attempt once its request is known; `again` is what follows an overflow.
  unfoldable pub call_with : Attempt A → (Request → Run A) → Outcome → Run A
  call_with attempt again over_budget = stopped over_context
  call_with attempt again threw = stopped compaction_failed
  call_with attempt again (compacted c) =
      if attempt.aborts.before_call then stopped aborted else (elim (attempt.call c.request) [
        | answered a ↦ called c.request (stopped (returned a))
        | overflow ↦ called c.request (again c.request)
        | failure ↦ called c.request (stopped call_failed)
      ])

  -- The loop from the attempt `n` on, with the portions that are left of `shrink`.
  unfoldable pub attempts : (ℕ → Attempt A) → ℕ → ℕ → List (ℕ → ℕ) → ℕ → ℕ → Request → Run A
  attempts attempt ceiling n [] target rejected request =
      if (attempt n).aborts.at_start
      then stopped aborted
      else call_with (attempt n) (λ r. stopped call_failed) (prepare (attempt n) n target request)
  attempts attempt ceiling n (portion ∷ rest) target rejected request =
      let again = λ (r : Request).
        if (attempt n).aborts.after_error
        then stopped call_failed
        else attempts attempt ceiling (suc n) rest
            (next_target ceiling portion (first_size rejected r) r) (first_size rejected r) r in
      if (attempt n).aborts.at_start
      then stopped aborted
      else call_with (attempt n) again (prepare (attempt n) n target request)

  -- `shrink` has three portions.
  unfoldable pub with_budget_retry :
      (ℕ → Attempt A) → (ℕ → ℕ) → (ℕ → ℕ) → (ℕ → ℕ) → ℕ → Request → Run A
  with_budget_retry attempt p q r ceiling request =
      attempts attempt ceiling 0 (p ∷ q ∷ r ∷ []) ceiling 0 request
