-- ===== src/JobQueue/Changes.antt =====
-- What the operations of the queue make of a job, field by field.
use Prim.Native.String.{String}
use codeberg.Base.{
  ℕ, ◌+◌, ◌<◌, ◌≤◌, ◌&&◌, ◌||◌, not, ◌⊎◌, true, ◌≡◌, Bool, false, Option, none, some, refl,
}
use codeberg.JobQueue.Job.{
  pending, processing, completed, failed, process_crash, FailureCategory, JobType, KnowledgeJob,
}

-- The fields that say what the work is.
abbrev pub IsSameWork : KnowledgeJob → KnowledgeJob → Type 0
IsSameWork a b =
    (b.job_id ≡ a.job_id)
    × (b.type ≡ a.type)
    × (b.interaction_id ≡ a.interaction_id)
    × (b.source_revision ≡ a.source_revision)
    × (b.extraction_version ≡ a.extraction_version)
    × (b.source_code_revision ≡ a.source_code_revision)
    × (b.created_at ≡ a.created_at)

pub IsSameWork-refl : (a : KnowledgeJob) → IsSameWork a a
IsSameWork-refl a = (refl, refl, refl, refl, refl, refl, refl)

-- A job that a worker takes.
pub record IsClaimed (now lease_ms : ℕ) (job c : KnowledgeJob) : Type 0 where
  pub is_processing : c.status ≡ processing
  pub one_more : c.attempt_count ≡ job.attempt_count + 1
  pub leased : c.lease_expires_at ≡ some (now + lease_ms)
  pub attempted : c.last_attempt_at ≡ some now
  pub updated : c.updated_at ≡ now
  pub same_work : IsSameWork job c
  pub same_refresh : c.source_refresh ≡ job.source_refresh
  pub same_error : c.last_error ≡ job.last_error
  pub same_category : c.last_error_category ≡ job.last_error_category
  pub same_rerun : c.rerun_requested ≡ job.rerun_requested

-- A job that waits again, without a lease: of `job`, with so many attempts and due at a time.
pub record Waits (now attempts : ℕ) (due : Option ℕ) (job c : KnowledgeJob) : Type 0 where
  pub is_pending : c.status ≡ pending
  pub attempts_lem : c.attempt_count ≡ attempts
  pub due_lem : c.next_attempt_at ≡ due
  pub no_lease : c.lease_expires_at ≡ none
  pub updated : c.updated_at ≡ now
  pub same_work : IsSameWork job c

-- One that a worker gives back.
pub record IsGivenBack (now attempts : ℕ) (job c : KnowledgeJob) : Type 0 where
  pub waits : Waits now attempts none job c
  pub no_rerun : c.rerun_requested ≡ false
  pub same_refresh : c.source_refresh ≡ job.source_refresh
  pub same_error : c.last_error ≡ job.last_error
  pub same_category : c.last_error_category ≡ job.last_error_category

-- One whose worker is gone.
pub record IsRecovered (now : ℕ) (job c : KnowledgeJob) : Type 0 where
  pub waits : Waits now job.attempt_count (some now) job c
  pub crashed : c.last_error_category ≡ some process_crash
  pub expired : c.last_error ≡ some "worker lease expired"
  pub same_refresh : c.source_refresh ≡ job.source_refresh
  pub same_rerun : c.rerun_requested ≡ job.rerun_requested

-- One that was asked for again while a worker held it.
pub record IsAskedAgain (now : ℕ) (refresh : Bool) (job c : KnowledgeJob) : Type 0 where
  pub waits : Waits now job.attempt_count none job c
  pub no_rerun : c.rerun_requested ≡ false
  pub refreshed : c.source_refresh ≡ refresh

-- One that is done.
pub record IsDone (now : ℕ) (job c : KnowledgeJob) : Type 0 where
  pub is_completed : c.status ≡ completed
  pub same_attempts : c.attempt_count ≡ job.attempt_count
  pub no_due : c.next_attempt_at ≡ none
  pub no_lease : c.lease_expires_at ≡ none
  pub no_error : c.last_error ≡ none
  pub no_category : c.last_error_category ≡ none
  pub updated : c.updated_at ≡ now
  pub same_work : IsSameWork job c
  pub same_refresh : c.source_refresh ≡ job.source_refresh

-- What `complete` leaves of the disk copy `current` and the worker copy `job`.
pub data Completes (now : ℕ) (current job c : KnowledgeJob) : Type 0 where
  asked_again :
      current.rerun_requested ≡ true
      → IsAskedAgain now current.source_refresh current c
      → Completes now current job c
  done : current.rerun_requested ≡ false → IsDone now job c → Completes now current job c

-- Whether a job that failed is tried again, and when.
pub data Decides (transient : Bool) (due : ℕ) (job c : KnowledgeJob) : Type 0 where
  gives_up :
      (transient ≡ false) ⊎ (5 ≤ job.attempt_count)
      → c.status ≡ failed
      → c.next_attempt_at ≡ none
      → Decides transient due job c
  tries_again :
      transient ≡ true
      → job.attempt_count < 5
      → c.status ≡ pending
      → c.next_attempt_at ≡ some due
      → Decides transient due job c

-- One that failed with an error.
pub record IsFailure (now due : ℕ) (category : FailureCategory) (error : String) (transient : Bool)
    (job c : KnowledgeJob) : Type 0 where
  pub decides : Decides transient due job c
  pub same_attempts : c.attempt_count ≡ job.attempt_count
  pub no_lease : c.lease_expires_at ≡ none
  pub with_error : c.last_error ≡ some error
  pub with_category : c.last_error_category ≡ some category
  pub updated : c.updated_at ≡ now
  pub same_work : IsSameWork job c
  pub same_refresh : c.source_refresh ≡ job.source_refresh

-- What `fail` leaves of the disk copy `current` and the worker copy `job`.
pub data Fails (now due : ℕ) (category : FailureCategory) (error : String) (transient : Bool)
    (current job c : KnowledgeJob) : Type 0 where
  asked_again :
      current.rerun_requested ≡ true
      → IsAskedAgain now current.source_refresh current c
      → Fails now due category error transient current job c
  fails :
      current.rerun_requested ≡ false
      → IsFailure now due category error transient job c
      → Fails now due category error transient current job c

-- One that waits for its first attempt.
pub record IsUntried (now id : ℕ) (type : JobType) (interaction_id : String) (refresh : Bool)
    (c : KnowledgeJob) : Type 0 where
  pub is_pending : c.status ≡ pending
  pub no_attempts : c.attempt_count ≡ 0
  pub no_due : c.next_attempt_at ≡ none
  pub no_lease : c.lease_expires_at ≡ none
  pub no_rerun : c.rerun_requested ≡ false
  pub same_id : c.job_id ≡ id
  pub same_type : c.type ≡ type
  pub same_interaction : c.interaction_id ≡ interaction_id
  pub same_refresh : c.source_refresh ≡ refresh
  pub updated : c.updated_at ≡ now

-- What `enqueue` leaves of the job that was there, if any.
pub data Enqueues (now id : ℕ) (type : JobType) (interaction_id : String) (refresh requeues : Bool)
    : Option KnowledgeJob → KnowledgeJob → Type 0 where
  creates :
      (c : KnowledgeJob)
      → IsUntried now id type interaction_id refresh c
      → c.created_at ≡ now
      → c.last_error ≡ none
      → Enqueues now id type interaction_id refresh requeues none c
  requeues_it :
      (e c : KnowledgeJob)
      → requeues ≡ true
      → (e.status ≡ completed) ⊎ (e.status ≡ failed)
      → IsUntried now id type interaction_id refresh c
      → c.created_at ≡ e.created_at
      → Enqueues now id type interaction_id refresh requeues (some e) c
  marks :
      (e : KnowledgeJob)
      → requeues ≡ true
      → e.status ≡ processing
      → Enqueues now id type interaction_id refresh requeues
          (some e)
          (record e { rerun_requested = true; source_refresh = e.source_refresh && refresh })
  retains :
      (e : KnowledgeJob)
      → (requeues ≡ false) ⊎ (e.status ≡ pending)
      → Enqueues now id type interaction_id refresh requeues
          (some e)
          (record e { source_refresh = e.source_refresh && (not requeues || refresh) })
