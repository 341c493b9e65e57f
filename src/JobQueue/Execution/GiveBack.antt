-- ===== src/JobQueue/Execution/GiveBack.antt =====
-- What `complete`, `fail` and `release` do to a job that the worker holds.
use Prim.Native.String.{String}
use codeberg.Base.{
  ℕ, ◌+◌, ◌≤◌, ◌⊎◌, inl, inr, true, false, Bool-cases, ◌-◌, ◌==◌, ◌≡◌, ◌≢◌, if◌then◌else◌, Bool,
  none, some, arith, refl,
}
use codeberg.JobQueue.Job.{pending, processing, FailureCategory, KnowledgeJob}
use codeberg.JobQueue.Changes.{
  IsSameWork-refl, IsGivenBack, IsAskedAgain, Completes, asked_again, done, Decides, gives_up,
  tries_again, Fails, fails,
}
use codeberg.JobQueue.Disk.{holds, Disk, file, find, transition}
use codeberg.JobQueue.Invariant.{
  IsWellFormed, transition-IsWellFormed, find-transition, find_held, held_fields,
}
use codeberg.JobQueue.Execution.{
  complete, release, delay, fail_as, released, rerun, finished, failure, is_permanent,
}

-- The job that stands in the queue after `complete` of a worker whose own copy is `job`, where the
-- disk holds `current`.
abbrev pub completion : ℕ → KnowledgeJob → KnowledgeJob → KnowledgeJob
completion now current job = if current.rerun_requested then rerun now current else finished now job

abbrev pub failing :
    ℕ → KnowledgeJob → KnowledgeJob → FailureCategory → String → Bool → KnowledgeJob
failing now current job category error transient =
    if current.rerun_requested
    then rerun now current
    else failure now category error (is_permanent now transient job) job

rerun-IsAskedAgain :
    (now : ℕ) (current : KnowledgeJob)
    → IsAskedAgain now current.source_refresh current (rerun now current)
rerun-IsAskedAgain now current = record {
  waits = record {
    is_pending = refl;
    attempts_lem = refl;
    due_lem = refl;
    no_lease = refl;
    updated = refl;
    same_work = IsSameWork-refl current;
  };
  no_rerun = refl;
  refreshed = refl;
}

completion-Completes :
    (now : ℕ) (current job : KnowledgeJob) → Completes now current job (completion now current job)
completion-Completes now current job = elim (Bool-cases current.rerun_requested) [
  | inl again ↦ simp again (asked_again again (rerun-IsAskedAgain now current))
  | inr over ↦ simp over (
      done over (record {
        is_completed = refl;
        same_attempts = refl;
        no_due = refl;
        no_lease = refl;
        no_error = refl;
        no_category = refl;
        updated = refl;
        same_work = IsSameWork-refl job;
        same_refresh = refl;
      }))
]

module _ (now : ℕ) (category : FailureCategory) (error : String) (transient : Bool)
    (current job : KnowledgeJob) where
  is_permanent-cases :
      is_permanent now transient job ≡ true → (transient ≡ false) ⊎ (5 ≤ job.attempt_count)
  is_permanent-cases h = elim (Bool-cases transient) [
    | inl passing ↦ inr (ground arith)
    | inr never ↦ inl never
  ]

  failure-Decides :
      Decides transient
        (now + delay now job.attempt_count)
        job
        (failure now category error (is_permanent now transient job) job)
  failure-Decides = elim (Bool-cases (is_permanent now transient job)) [
    | inl final ↦ rw final (gives_up (is_permanent-cases final) refl refl)
    | inr open_end ↦ rw open_end (tries_again (ground arith) (ground arith) refl refl)
  ]

  failing-Fails :
      Fails now
        (now + delay now job.attempt_count)
        category
        error
        transient
        current
        job
        (failing now current job category error transient)
  failing-Fails = elim (Bool-cases current.rerun_requested) [
    | inl again ↦ simp again (asked_again again (rerun-IsAskedAgain now current))
    | inr over ↦ simp over (
        fails over (record {
          decides = failure-Decides;
          same_attempts = refl;
          no_lease = refl;
          with_error = refl;
          with_category = refl;
          updated = refl;
          same_work = IsSameWork-refl job;
          same_refresh = refl;
        }))
  ]

module _ (now : ℕ) (d : Disk) (current job : KnowledgeJob) (v : IsWellFormed d)
    (held : file d processing job.job_id ≡ some (holds current)) where
  complete-transition :
      complete now job d
      ≡ transition d job.job_id processing
          (completion now current job).status
          (completion now current job)
  unfolding complete
  complete-transition =
      ground (arith, find_held d job.job_id current v held, held_fields d job.job_id current v held)

  fail_as-transition :
      (category : FailureCategory) (error : String) (transient : Bool)
      → fail_as now job category error transient d
        ≡ transition d job.job_id processing
            (failing now current job category error transient).status
            (failing now current job category error transient)
  unfolding fail_as
  fail_as-transition category error transient =
      ground (arith, find_held d job.job_id current v held, held_fields d job.job_id current v held)

  is_there : file d processing job.job_id ≢ none
  is_there e = cc

  -- For a held job, complete keeps the directories well-formed and changes no other job. If a
  -- rerun was requested the job becomes the disk copy, pending, without a lease, a delay or the
  -- rerun flag; otherwise it becomes the worker copy, completed, without a lease, a next attempt
  -- or an error.
  pub complete_refines :
      IsWellFormed (complete now job d)
      × ((j : ℕ)
          → find (complete now job d) j
            ≡ (if job.job_id == j then some (completion now current job) else find d j))
      × Completes now current job (completion now current job)
  complete_refines = rw complete-transition (
    transition-IsWellFormed d job.job_id processing _ (completion now current job) v is_there
        (ground (arith, held_fields d job.job_id current v held)) refl,
    λ j. find-transition d job.job_id j processing _ (completion now current job) v is_there,
    completion-Completes now current job,
  )

  -- For a held job, fail keeps the directories well-formed and changes no other job. If a rerun
  -- was requested the job becomes the disk copy, pending, without a lease, a delay or the rerun
  -- flag; otherwise it becomes the worker copy with the error and without a lease, failed for good
  -- if the failure is not transient or five attempts are made, and otherwise pending until now
  -- plus the delay of its attempts.
  pub fail_refines :
      (category : FailureCategory) (error : String) (transient : Bool)
      → IsWellFormed (fail_as now job category error transient d)
        × ((j : ℕ)
            → find (fail_as now job category error transient d) j ≡ (
                if job.job_id == j
                then some (failing now current job category error transient)
                else find d j))
        × Fails now
            (now + delay now job.attempt_count)
            category
            error
            transient
            current
            job
            (failing now current job category error transient)
  fail_refines category error transient = rw fail_as-transition (
    transition-IsWellFormed d job.job_id processing _
        (failing now current job category error transient) v is_there
        (ground (arith, held_fields d job.job_id current v held)) refl,
    λ j.
        find-transition d job.job_id j processing _
          (failing now current job category error transient) v is_there,
    failing-Fails now category error transient current job,
  )

  -- One attempt fewer than the worker's copy counts, and none fewer than none.
  released-IsGivenBack :
      IsGivenBack now (job.attempt_count - 1) current (released now (some current) job)
  released-IsGivenBack = record {
    waits = record {
      is_pending = refl;
      attempts_lem = refl;
      due_lem = refl;
      no_lease = refl;
      updated = refl;
      same_work = IsSameWork-refl current;
    };
    no_rerun = refl;
    same_refresh = refl;
    same_error = refl;
    same_category = refl;
  }

  -- For a held job, release keeps the directories well-formed, puts the disk copy back to pending
  -- with one attempt fewer than the worker copy counts, no lease, no delay and no rerun flag, and
  -- changes no other job.
  pub release_refines :
      IsWellFormed (release now job d)
      × ((c : KnowledgeJob) × IsGivenBack now (job.attempt_count - 1) current c
          × ((j : ℕ) → find (release now job d) j ≡ (if job.job_id == j then some c else find d j)))
  unfolding release
  release_refines =
      rw (find_held d job.job_id current v held, release)
        (
          transition-IsWellFormed d job.job_id processing pending (released now (some current) job)
              v is_there (held_fields d job.job_id current v held).0 refl,
          (
            released now (some current) job,
            released-IsGivenBack,
            λ j.
                find-transition d job.job_id j processing pending (released now (some current) job)
                  v is_there,
          ),
        )
