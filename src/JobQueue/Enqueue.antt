-- ===== src/JobQueue/Enqueue.antt =====
-- Putting a job into the queue, or noting on the one that is there what is asked of it:
-- agent/src/core/learning/queue/enqueue.ts.
pub mod Laws
pub mod Requests
use Prim.Native.String.{String}
use codeberg.Base.{ℕ, ◌==◌, if◌then◌else◌, Bool, true, false, not, ◌&&◌, ◌||◌, Option, none, some}
use codeberg.JobQueue.Job.{
  JobStatus, pending, processing, completed, failed, JobType, KnowledgeJob, same_status,
}
use codeberg.JobQueue.Disk.{Disk, write_json, unlink, find}

pub record EnqueueOptions : Type 0 where
  pub requeue_completed : Bool
  pub source_refresh : Bool

abbrev pub is_finished : JobStatus → Bool
is_finished s = same_status s completed || same_status s failed

-- The job that `enqueue` returns and the disk, if the job on disk is kept as the queue's entry.
unfoldable pub retain_existing : KnowledgeJob → EnqueueOptions → Disk → Option (KnowledgeJob × Disk)
retain_existing existing o d =
    if same_status existing.status processing && o.requeue_completed
    then some (
      existing,
      write_json d processing existing.job_id (record existing {
        rerun_requested = true;
        source_refresh = existing.source_refresh && o.source_refresh;
      }),
    )
    else if not (o.requeue_completed && is_finished existing.status)
    then if existing.source_refresh && o.requeue_completed && not o.source_refresh
      then some (
        record existing { source_refresh = false },
        write_json d existing.status existing.job_id (record existing { source_refresh = false }),
      )
      else some (existing, d)
    else none

-- `crypto.createHash` gives a job its id: `stableId('job', type, interactionId)`.
module _ (stable_id : JobType → String → ℕ) (now : ℕ) where
  abbrev pub fresh_job : JobType → String → EnqueueOptions → KnowledgeJob
  fresh_job type interaction_id o = record {
    job_id = stable_id type interaction_id;
    type = type;
    interaction_id = interaction_id;
    source_revision = none;
    extraction_version = none;
    source_code_revision = none;
    source_refresh = o.source_refresh;
    created_at = now;
    updated_at = now;
    attempt_count = 0;
    status = pending;
    last_error = none;
    last_error_category = none;
    last_attempt_at = none;
    next_attempt_at = none;
    lease_expires_at = none;
    rerun_requested = false;
  }

  -- The fields of the job on disk stay, but for those that the literal names after the spread.
  abbrev pub requeued_job : KnowledgeJob → JobType → String → EnqueueOptions → KnowledgeJob
  requeued_job existing type interaction_id o = record existing {
    job_id = stable_id type interaction_id;
    type = type;
    interaction_id = interaction_id;
    source_refresh = o.source_refresh;
    updated_at = now;
    attempt_count = if o.requeue_completed then 0 else existing.attempt_count;
    status = pending;
    next_attempt_at = none;
    lease_expires_at = none;
    rerun_requested = false;
  }

  requeue : KnowledgeJob → JobType → String → EnqueueOptions → Disk → Disk × KnowledgeJob
  requeue existing type interaction_id o d =
      let job = requeued_job existing type interaction_id o in
      let written = write_json d pending job.job_id job in
      if same_status existing.status pending
      then (written, job)
      else (unlink written existing.status job.job_id, job)

  enqueue_over :
      Option KnowledgeJob → JobType → String → EnqueueOptions → Disk → Disk × KnowledgeJob
  enqueue_over none type interaction_id o d =
      let job = fresh_job type interaction_id o in (write_json d pending job.job_id job, job)
  enqueue_over (some existing) type interaction_id o d = elim (retain_existing existing o d) [
    | some (kept, d') ↦ (d', kept)
    | none ↦ requeue existing type interaction_id o d
  ]

  unfoldable pub enqueue : JobType → String → EnqueueOptions → Disk → Disk × KnowledgeJob
  unfolding enqueue_over requeue retain_existing
  enqueue type interaction_id o d =
      enqueue_over (find d (stable_id type interaction_id)) type interaction_id o d
