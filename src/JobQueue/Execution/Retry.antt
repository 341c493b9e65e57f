-- ===== src/JobQueue/Execution/Retry.antt =====
-- The retry policy, as `fail` applies it to a job that the worker holds.
use Prim.Native.String.{String}
use codeberg.Base.{
  ℕ, zero, suc, ◌+◌, ◌≤◌, ◌<◌, ◌≡◌, ◌⊎◌, leb, Bool, true, false, none, some, arith, refl,
}
use codeberg.JobQueue.Job.{pending, processing, failed, FailureCategory, KnowledgeJob, max_attempts}
use codeberg.JobQueue.Disk.{holds, Disk, file, find}
use codeberg.JobQueue.Invariant.{IsWellFormed}
use codeberg.JobQueue.Execution.{fail_as, failure, delay, is_claimable}
use codeberg.JobQueue.Execution.GiveBack.{fail_refines}

delay_bounds :
    (attempts : ℕ)
    → attempts < max_attempts
    → (60000 ≤ delay 0 attempts) × (delay 0 attempts ≤ 3600000)
delay_bounds zero h = omega arith
delay_bounds (suc zero) h = omega arith
delay_bounds (suc (suc zero)) h = omega arith
delay_bounds (suc (suc (suc zero))) h = omega arith
delay_bounds (suc (suc (suc (suc zero)))) h = omega arith
delay_bounds (suc (suc (suc (suc (suc n))))) h = absurd (omega arith)

module _ (now : ℕ) (d : Disk) (current job : KnowledgeJob) (category : FailureCategory)
    (error : String) (v : IsWellFormed d)
    (held : file d processing job.job_id ≡ some (holds current))
    (undisturbed : current.rerun_requested ≡ false) where
  -- A transient failure of a held job before the fifth attempt, with no rerun requested, puts it
  -- back to pending with its attempt count, claimable exactly from a due time between one minute
  -- and one hour later.
  pub fail_retries :
      job.attempt_count < max_attempts
      → (next : KnowledgeJob) × (due : ℕ) × (find (fail_as now job category error true d) job.job_id
          ≡ some next)
        × (next.status ≡ pending)
        × (next.attempt_count ≡ job.attempt_count)
        × (now + 60000 ≤ due)
        × (due ≤ now + 3600000)
        × ((later : ℕ) → is_claimable later none (λ _. true) next ≡ leb due later)
  fail_retries few = (
    failure now category error false job,
    now + delay now job.attempt_count,
    ground (arith, (fail_refines now d current job v held category error true).1 job.job_id),
    refl,
    refl,
    omega (arith, delay_bounds job.attempt_count few),
    omega (arith, delay_bounds job.attempt_count few),
    λ later. ground arith,
  )

  -- A failure of a held job, with no rerun requested, that is not transient or that is of the
  -- fifth attempt or later ends in failed with the error recorded and no next attempt.
  pub fail_final :
      (transient : Bool)
      → (transient ≡ false) ⊎ (max_attempts ≤ job.attempt_count)
      → (next : KnowledgeJob) × (find (fail_as now job category error transient d) job.job_id
          ≡ some next)
        × (next.status ≡ failed)
        × (next.next_attempt_at ≡ none)
        × (next.last_error ≡ some error)
        × (next.last_error_category ≡ some category)
  fail_final transient over = (
    failure now category error true job,
    ground (arith, (fail_refines now d current job v held category error transient).1 job.job_id),
    refl,
    refl,
    refl,
    refl,
  )
