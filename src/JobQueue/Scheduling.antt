-- ===== src/JobQueue/Scheduling.antt =====
-- When the worker has to look at the queue again, and what the queue holds:
-- agent/src/core/learning/queue/scheduling.ts. Every timestamp is a number of milliseconds, so the
-- filter by `Number.isFinite` keeps all of them.
pub mod Due
use codeberg.Base.{
  ℕ, Bool, ◌&&◌, Option, none, some, List, [], ◌∷◌, ◌++◌, map, min, keep_if, length,
}
use codeberg.JobQueue.Job.{JobStatus, pending, processing, completed, failed, JobType, KnowledgeJob}
use codeberg.JobQueue.Disk.{Disk, list}
use codeberg.JobQueue.Execution.{of_type}

abbrev pub or_now : Option ℕ → ℕ → ℕ
or_now none now = now
or_now (some t) now = t

abbrev pub min_from : ℕ → List ℕ → ℕ
min_from x [] = x
min_from x (y ∷ ys) = min_from (min x y) ys

-- `times.length ? Math.min(...times) : undefined`
abbrev pub minimum : List ℕ → Option ℕ
minimum [] = none
minimum (x ∷ xs) = some (min_from x xs)

abbrev pub is_wanted : Option JobType → (KnowledgeJob → Bool) → KnowledgeJob → Bool
is_wanted type enabled job = of_type type job && enabled job

module _ (now : ℕ) (type : Option JobType) (enabled : KnowledgeJob → Bool) where
  abbrev pub due_times : Disk → List ℕ
  due_times d =
      map (λ job. or_now job.next_attempt_at now)
        (keep_if (is_wanted type enabled) (list d pending))
      ++ map (λ job. or_now job.lease_expires_at now)
          (keep_if (is_wanted type enabled) (list d processing))

  unfoldable pub next_due_at : Disk → Option ℕ
  next_due_at d = minimum (due_times d)

unfoldable pub counts : Disk → JobStatus → ℕ
counts d s = length (list d s)
