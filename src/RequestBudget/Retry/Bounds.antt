-- ===== src/RequestBudget/Retry/Bounds.antt =====
-- How often and with what the provider is called.
use codeberg.Base.{
  ℕ, suc, ◌≤◌, ◌≡◌, ◌⊎◌, ◌||◌, inl, inr, ltb, if◌then◌else◌, Bool, true, false, List, [], ◌∷◌,
  length, All, arith, refl, Bool-cases,
}
use codeberg.Text.{Text}
use codeberg.RequestBudget.Estimate.{Content, Request, estimate_request}
use codeberg.RequestBudget.Compact.{Outcome, compacted, over_budget, threw, compact_request}
use codeberg.RequestBudget.Compact.Laws.{compact_request-IsCompacted}
use codeberg.RequestBudget.Retry.{
  Reply, answered, overflow, failure, Result, returned, call_failed, Run, Attempt, stopped, called,
  first_size, next_target, prepare, call_with, attempts, with_budget_retry,
}

-- A request that one of the two estimates finds within the ceiling.
abbrev pub Fits : (Request → ℕ) → ℕ → Request → Type 0
Fits usage ceiling request = (usage request ≤ ceiling) ⊎ (estimate_request request ≤ ceiling)

abbrev FitsOutcome : (Request → ℕ) → ℕ → Outcome → Type 0
FitsOutcome usage ceiling (compacted c) = Fits usage ceiling c.request
FitsOutcome usage ceiling over_budget = Unit {0}
FitsOutcome usage ceiling threw = Unit {0}

pub record IsBounded {A : Type 0} (usage : Request → ℕ) (ceiling tries : ℕ) (run : Run A)
    : Type 0 where
  pub few : length run.calls ≤ tries
  pub small : All (Fits usage ceiling) run.calls

module _ {A : Type 0} (canonical : Content → Text) (usage : Request → ℕ) where
  compacted_fits :
      (attempt : Attempt A) (ceiling target : ℕ) (request : Request) (o : Outcome)
      → target ≤ ceiling
      → compact_request canonical attempt.write_history attempt.summarize request target ≡ o
      → FitsOutcome usage ceiling o
  compacted_fits attempt ceiling target request (compacted c) h e =
      let k =
        compact_request-IsCompacted canonical attempt.write_history attempt.summarize request target
          c e in
      inr (omega (arith, k.fits))
  compacted_fits attempt ceiling target request over_budget h e = tt
  compacted_fits attempt ceiling target request threw h e = tt

  prepare_fits :
      (attempt : Attempt A) (n ceiling target : ℕ) (request : Request)
      → target ≤ ceiling
      → FitsOutcome usage ceiling (prepare canonical usage attempt n target request)
  unfolding prepare
  prepare_fits attempt n ceiling target request h =
      elim (Bool-cases (ltb target (usage request) || ltb 0 n)) [
        | inl again ↦ rw again (compacted_fits attempt ceiling target request _ h refl)
        | inr first ↦ rw first (inl (ground arith))
      ]

  stopped-IsBounded : (ceiling tries : ℕ) (r : Result A) → IsBounded usage ceiling tries (stopped r)
  stopped-IsBounded ceiling tries r = record { few = omega arith; small = tt }

  called-IsBounded :
      (ceiling tries : ℕ) (request : Request) (run : Run A)
      → Fits usage ceiling request
      → IsBounded usage ceiling tries run
      → IsBounded usage ceiling (suc tries) (called request run)
  called-IsBounded ceiling tries request run f b = record {
    few = omega (arith, b.few);
    small = (f, b.small);
  }

  call_with-IsBounded :
      (attempt : Attempt A) (ceiling tries : ℕ) (again : Request → Run A) (o : Outcome)
      → FitsOutcome usage ceiling o
      → ((r : Request) → IsBounded usage ceiling tries (again r))
      → IsBounded usage ceiling (suc tries) (call_with canonical usage attempt again o)
  unfolding call_with
  call_with-IsBounded attempt ceiling tries again over_budget f b =
      stopped-IsBounded ceiling (suc tries) _
  call_with-IsBounded attempt ceiling tries again threw f b =
      stopped-IsBounded ceiling (suc tries) _
  call_with-IsBounded attempt ceiling tries again (compacted c) f b =
      elim (Bool-cases attempt.aborts.before_call) [
        | inl stop ↦ rw stop (stopped-IsBounded ceiling (suc tries) _)
        | inr go ↦ rw go (reply-IsBounded (attempt.call c.request))
      ]
    where
      reply-IsBounded :
          (r : Reply A)
          → IsBounded usage ceiling (suc tries) (elim r as (λ x. Run A) [
            | answered a ↦ called c.request (stopped (returned a))
            | overflow ↦ called c.request (again c.request)
            | failure ↦ called c.request (stopped call_failed)
          ])
      reply-IsBounded (answered a) =
          called-IsBounded ceiling tries c.request _ f (stopped-IsBounded ceiling tries _)
      reply-IsBounded overflow = called-IsBounded ceiling tries c.request _ f (b c.request)
      reply-IsBounded failure =
          called-IsBounded ceiling tries c.request _ f (stopped-IsBounded ceiling tries _)

  if-IsBounded :
      (ceiling tries : ℕ) (b : Bool) (x y : Run A)
      → IsBounded usage ceiling tries x
      → IsBounded usage ceiling tries y
      → IsBounded usage ceiling tries (if b then x else y)
  if-IsBounded ceiling tries true x y p q = p
  if-IsBounded ceiling tries false x y p q = q

  attempts-IsBounded :
      (attempt : ℕ → Attempt A) (ceiling n : ℕ) (shrink : List (ℕ → ℕ)) (target rejected : ℕ)
      (request : Request)
      → target ≤ ceiling
      → IsBounded usage ceiling
          (suc (length shrink))
          (attempts canonical usage attempt ceiling n shrink target rejected request)
  unfolding attempts
  attempts-IsBounded attempt ceiling n [] target rejected request h =
      if-IsBounded ceiling 1 (attempt n).aborts.at_start _ _ (stopped-IsBounded ceiling 1 _) (
        call_with-IsBounded (attempt n) ceiling 0 (λ r. stopped call_failed) _
          (prepare_fits (attempt n) n ceiling target request h)
          (λ r. stopped-IsBounded ceiling 0 _))
  attempts-IsBounded attempt ceiling n (portion ∷ rest) target rejected request h =
      let tries = suc (length rest) in
      if-IsBounded ceiling (suc tries) (attempt n).aborts.at_start _ _
        (stopped-IsBounded ceiling (suc tries) _)
        (call_with-IsBounded (attempt n) ceiling tries _ _
          (prepare_fits (attempt n) n ceiling target request h)
          (λ r.
            if-IsBounded ceiling tries (attempt n).aborts.after_error _ _
              (stopped-IsBounded ceiling tries _)
              (attempts-IsBounded attempt ceiling (suc n) rest
                (next_target ceiling portion (first_size rejected r) r) (first_size rejected r) r
                (omega arith))))

  -- However the provider answers, whatever the signal does and whatever summaries and files
  -- compaction is given, withBudgetRetry calls the provider at most four times, each time with a
  -- request that the ceiling of the budget holds by one of the two estimates.
  pub with_budget_retry-IsBounded :
      (attempt : ℕ → Attempt A) (p q r : ℕ → ℕ) (ceiling : ℕ) (request : Request)
      → IsBounded usage ceiling 4 (with_budget_retry canonical usage attempt p q r ceiling request)
  unfolding with_budget_retry
  with_budget_retry-IsBounded attempt p q r ceiling request =
      attempts-IsBounded attempt ceiling 0 (p ∷ q ∷ r ∷ []) ceiling 0 request (omega arith)
