-- ===== src/JobQueue/Execution.antt =====
-- Claiming a job and the three ways in which a worker gives it back:
-- agent/src/core/learning/queue/execution.ts. The injected clock is read once for each call of an
-- operation, `now`; `lease_ms` is the state's field.
pub mod GiveBack
pub mod Claiming
pub mod Retry
use Prim.Native.String.{String}
use codeberg.Base.{
  ℕ, ◌+◌, ◌-◌, ◌==◌, leb, ltb, if◌then◌else◌, get_or, length, min, Bool, true, false, not, ◌&&◌,
  ◌||◌, Option, none, some, List, [], ◌∷◌,
}
use codeberg.JobQueue.Job.{
  JobStatus, pending, processing, completed, failed, FailureCategory, JobType, KnowledgeJob,
  same_status, same_type, backoff_ms, max_attempts, is_transient_failure,
}
use codeberg.JobQueue.Disk.{Disk, write_json, rename, list, find, transition}

-- `type && job.type !== type`, the other way round.
abbrev pub of_type : Option JobType → KnowledgeJob → Bool
of_type none job = true
of_type (some t) job = same_type job.type t

abbrev pub after : Option ℕ → ℕ → Bool
after none now = false
after (some t) now = ltb now t

module _ (now : ℕ) where
  -- The job passes the three tests that `claim` makes before it renames the file.
  abbrev pub is_claimable : Option JobType → (KnowledgeJob → Bool) → KnowledgeJob → Bool
  is_claimable type enabled job =
      of_type type job && enabled job && not (after job.next_attempt_at now)

  abbrev pub claimed : ℕ → KnowledgeJob → KnowledgeJob
  claimed lease_ms job = record job {
    status = processing;
    updated_at = now;
    attempt_count = job.attempt_count + 1;
    last_attempt_at = some now;
    lease_expires_at = some (now + lease_ms);
  }

  -- The loop of `claim` over the jobs that it listed; another worker may have changed the disk
  -- since, and then the rename fails.
  unfoldable pub claim_from :
      ℕ
      → Option JobType
      → (KnowledgeJob → Bool)
      → List KnowledgeJob
      → Disk
      → Disk × Option KnowledgeJob
  claim_from lease_ms type enabled [] d = (d, none)
  claim_from lease_ms type enabled (job ∷ rest) d =
      let skip = claim_from lease_ms type enabled rest d in
      if is_claimable type enabled job
      then (elim (rename d pending processing job.job_id) [
        | none ↦ skip
        | some d' ↦ (
          write_json d' processing job.job_id (claimed lease_ms job),
          some (claimed lease_ms job),
        )
      ])
      else skip

  unfoldable pub claim :
      ℕ → Option JobType → (KnowledgeJob → Bool) → Disk → Disk × Option KnowledgeJob
  claim lease_ms type enabled d = claim_from lease_ms type enabled (list d pending) d

  abbrev pub or_given : Option KnowledgeJob → KnowledgeJob → KnowledgeJob
  or_given none job = job
  or_given (some current) job = current

  abbrev pub released : Option KnowledgeJob → KnowledgeJob → KnowledgeJob
  released current job = record (or_given current job) {
    status = pending;
    updated_at = now;
    attempt_count = job.attempt_count - 1;
    lease_expires_at = none;
    next_attempt_at = none;
    rerun_requested = false;
  }

  unfoldable pub release : KnowledgeJob → Disk → Disk
  release job d = transition d job.job_id processing pending (released (find d job.job_id) job)

  -- `current?.status === 'processing' && current.rerun_requested`
  abbrev pub wants_rerun : Option KnowledgeJob → Bool
  wants_rerun none = false
  wants_rerun (some current) = same_status current.status processing && current.rerun_requested

  abbrev pub rerun : KnowledgeJob → KnowledgeJob
  rerun current = record current {
    status = pending;
    updated_at = now;
    next_attempt_at = none;
    lease_expires_at = none;
    rerun_requested = false;
  }

  abbrev pub finished : KnowledgeJob → KnowledgeJob
  finished job = record job {
    status = completed;
    updated_at = now;
    lease_expires_at = none;
    next_attempt_at = none;
    last_error = none;
    last_error_category = none;
  }

  unfoldable pub complete : KnowledgeJob → Disk → Disk
  complete job d =
      let current = find d job.job_id in
      if wants_rerun current
      then transition d job.job_id processing pending (rerun (or_given current job))
      else transition d job.job_id processing completed (finished job)

  abbrev pub is_permanent : Bool → KnowledgeJob → Bool
  is_permanent transient job = not transient || leb max_attempts job.attempt_count

  abbrev pub backoff_index : ℕ → ℕ
  backoff_index attempts = min (attempts - 1) (length backoff_ms - 1)

  abbrev pub delay : ℕ → ℕ
  delay attempts = get_or backoff_ms (backoff_index attempts) 0

  abbrev pub failure : FailureCategory → String → Bool → KnowledgeJob → KnowledgeJob
  failure category error permanent job = record job {
    status = if permanent then failed else pending;
    updated_at = now;
    last_error = some error;
    last_error_category = some category;
    lease_expires_at = none;
    next_attempt_at = if permanent then none else some (now + delay job.attempt_count);
  }

  unfoldable pub fail_as : KnowledgeJob → FailureCategory → String → Bool → Disk → Disk
  fail_as job category error transient d =
      let current = find d job.job_id in
      let next = failure category error (is_permanent transient job) job in
      if wants_rerun current
      then transition d job.job_id processing pending (rerun (or_given current job))
      else transition d job.job_id processing next.status next

  -- With the default of the parameter `transient`.
  abbrev pub fail : KnowledgeJob → FailureCategory → String → Disk → Disk
  fail job category error = fail_as job category error (is_transient_failure category)
