-- ===== src/JobQueue/Recovery.antt =====
-- Recovery after a crash, and at startup: agent/src/core/learning/queue/recovery.ts.
pub mod Sweep
pub mod Writes
mod Tests
pub mod Groups
pub mod Winner
pub mod Reconcile
pub mod Crash
use codeberg.Base.{
  ℕ, ◌+◌, ◌==◌, ltb, leb, if◌then◌else◌, Bool, true, false, not, ◌&&◌, ◌||◌, Option, none, some,
  List, [], ◌∷◌, ◌++◌,
}
use codeberg.JobQueue.Job.{
  JobStatus, pending, processing, completed, failed, FailureCategory, process_crash, KnowledgeJob,
  status_index, max_attempts, is_transient_failure,
}
use codeberg.JobQueue.Disk.{Disk, list, transition, unlink}
use codeberg.JobQueue.Execution.{after}

-- The loop that `recoverExpired` and `recoverRetryableFailures` share: every listed job that the
-- test does not skip moves to pending, and is counted.
unfoldable pub sweep :
    JobStatus
    → (KnowledgeJob → Bool)
    → (KnowledgeJob → KnowledgeJob)
    → List KnowledgeJob
    → Disk
    → Disk × ℕ
sweep from skips next [] d = (d, 0)
sweep from skips next (job ∷ rest) d =
    let (d', recovered) =
      sweep from skips next rest
        (if skips job then d else transition d job.job_id from pending (next job)) in
    (d', if skips job then recovered else recovered + 1)

module _ (now : ℕ) where
  abbrev pub recovered : KnowledgeJob → KnowledgeJob
  recovered job = record job {
    status = pending;
    updated_at = now;
    last_error = some "worker lease expired";
    last_error_category = some process_crash;
    next_attempt_at = some now;
    lease_expires_at = none;
  }

  abbrev pub is_leased : KnowledgeJob → Bool
  is_leased job = after job.lease_expires_at now

  unfoldable pub recover_expired : Disk → Disk × ℕ
  recover_expired d = sweep processing is_leased recovered (list d processing) d

  abbrev pub retried : KnowledgeJob → KnowledgeJob
  retried job = record job {
    status = pending;
    updated_at = now;
    next_attempt_at = some now;
    lease_expires_at = none;
  }

  -- `!job.last_error_category || !isTransientFailure(job.last_error_category)`
  abbrev pub is_lasting : Option FailureCategory → Bool
  is_lasting none = true
  is_lasting (some category) = not (is_transient_failure category)

  abbrev pub is_given_up : KnowledgeJob → Bool
  is_given_up job = is_lasting job.last_error_category || leb max_attempts job.attempt_count

  unfoldable pub recover_retryable_failures : Disk → Disk × ℕ
  recover_retryable_failures d = sweep failed is_given_up retried (list d failed) d

-- `byId` of `reconcileStates`: a Map keeps its keys in the order in which they came.
abbrev pub Groups : Type 0
Groups = List (ℕ × List KnowledgeJob)

pub add_to_group : KnowledgeJob → Groups → Groups
add_to_group job [] = (job.job_id, job ∷ []) ∷ []
add_to_group job ((id, jobs) ∷ groups) =
    if id == job.job_id
    then (id, jobs ++ job ∷ []) ∷ groups
    else (id, jobs) ∷ add_to_group job groups

pub by_id : Groups → List KnowledgeJob → Groups
by_id groups [] = groups
by_id groups (job ∷ rest) = by_id (add_to_group job groups) rest

-- `b` sorts before `a`: it is newer, or as old and its status comes later in `statuses`.
unfoldable pub beats : KnowledgeJob → KnowledgeJob → Bool
beats b a =
    ltb a.updated_at b.updated_at
    || (a.updated_at == b.updated_at && ltb (status_index a.status) (status_index b.status))

-- The first job of the sorted group, and the others: the sort is stable.
unfoldable pub split_winner : KnowledgeJob → List KnowledgeJob → KnowledgeJob × List KnowledgeJob
split_winner winner [] = (winner, [])
split_winner winner (job ∷ rest) =
    let (w, losers) = split_winner (if beats job winner then job else winner) rest in
    (w, (if beats job winner then winner else job) ∷ losers)

unfoldable pub unlink_all : ℕ → List KnowledgeJob → Disk → Disk
unlink_all id [] d = d
unlink_all id (job ∷ rest) d = unlink_all id rest (unlink d job.status id)

unfoldable pub reconcile_group : ℕ → List KnowledgeJob → Disk → Disk
unfolding split_winner unlink_all beats
reconcile_group id [] d = d
reconcile_group id (job ∷ rest) d = unlink_all id (split_winner job rest).1 d

pub reconcile_groups : Groups → Disk → Disk
reconcile_groups [] d = d
reconcile_groups ((id, jobs) ∷ groups) d = reconcile_groups groups (reconcile_group id jobs d)

abbrev pub listed_jobs : Disk → List KnowledgeJob
listed_jobs d = list d processing ++ (list d pending ++ (list d failed ++ list d completed))

unfoldable pub reconcile_states : Disk → Disk
unfolding by_id reconcile_groups add_to_group
reconcile_states d = reconcile_groups (by_id [] (listed_jobs d)) d
