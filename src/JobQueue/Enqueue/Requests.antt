-- ===== src/JobQueue/Enqueue/Requests.antt =====
-- Asking twice, and asking for a job that is being worked on.
use Prim.Native.String.{String}
use codeberg.Base.{ℕ, ◌≡◌, Bool, true, Option, none, some, arith, ◌&&◌, refl}
use codeberg.JobQueue.Job.{processing, JobType, FailureCategory, KnowledgeJob}
use codeberg.JobQueue.Changes.{IsSameWork-refl, IsAskedAgain}
use codeberg.JobQueue.Disk.{holds, Disk, file, find}
use codeberg.JobQueue.Invariant.{
  IsWellFormed, IsReadable, found-IsReadable, find_held, find-named, held_fields,
}
use codeberg.JobQueue.Execution.{complete, fail_as, rerun}
use codeberg.JobQueue.Execution.GiveBack.{complete_refines, fail_refines}
use codeberg.JobQueue.Enqueue.{EnqueueOptions, enqueue}
use codeberg.JobQueue.Enqueue.Laws.{enqueued, enqueue_refines}

rerun-IsAskedAgain :
    (now : ℕ) (current : KnowledgeJob) (refresh : Bool)
    → IsAskedAgain now refresh current
        (rerun now (record current { rerun_requested = true; source_refresh = refresh }))
rerun-IsAskedAgain now current refresh = record {
  waits = record {
    is_pending = refl;
    attempts_lem = refl;
    due_lem = refl;
    no_lease = refl;
    updated = refl;
    same_work = IsSameWork-refl current;
  };
  no_rerun = refl;
  refreshed = refl;
}

module _ (stable_id : JobType → String → ℕ) (now : ℕ) (type : JobType) (interaction_id : String)
    (o : EnqueueOptions) where
  enqueued_twice :
      (later : ℕ) (e : Option KnowledgeJob)
      → enqueued stable_id later type interaction_id o
          (some (enqueued stable_id now type interaction_id o e))
        ≡ enqueued stable_id now type interaction_id o e
  enqueued_twice later none = ground arith
  enqueued_twice later (some e) = ground arith

  -- On well-formed directories where the id is readable, a second enqueue with the same options,
  -- at any time, changes no job.
  pub enqueue_idempotent :
      (d : Disk) (later j : ℕ)
      → IsWellFormed d
      → IsReadable d (stable_id type interaction_id)
      → find
          (enqueue stable_id later type interaction_id o
            (enqueue stable_id now type interaction_id o d).0).0
          j
        ≡ find (enqueue stable_id now type interaction_id o d).0 j
  enqueue_idempotent d later j v r =
      let id = stable_id type interaction_id in
      let d' = (enqueue stable_id now type interaction_id o d).0 in
      let ((v', at), _) = enqueue_refines stable_id now type interaction_id o d v r in
      let job = enqueued stable_id now type interaction_id o (find d id) in
      let here : find d' id ≡ some job = ground (arith, at id) in
      let ((_, at'), _) =
        enqueue_refines stable_id later type interaction_id o d' v'
          (found-IsReadable d' id job v' here) in
      ground (arith, at' j, at j, here, enqueued_twice later (find d id))

  -- If a requeueing enqueue reaches a job that a worker holds, then whether the worker completes
  -- it or fails it the job ends pending, with no lease, no rerun flag and no delay.
  pub rerun_kept :
      (d : Disk) (current job : KnowledgeJob) (later : ℕ) (category : FailureCategory)
      (error : String) (transient : Bool)
      → IsWellFormed d
      → file d processing (stable_id type interaction_id) ≡ some (holds current)
      → job.job_id ≡ stable_id type interaction_id
      → o.requeue_completed ≡ true
      → let d' = (enqueue stable_id now type interaction_id o d).0 in
        (c : KnowledgeJob) × (find (complete later job d') job.job_id ≡ some c)
        × (find (fail_as later job category error transient d') job.job_id ≡ some c)
        × IsAskedAgain later (current.source_refresh && o.source_refresh) current c
  rerun_kept d current job later category error transient v held id yes_requeue =
      let k = stable_id type interaction_id in
      let d' = (enqueue stable_id now type interaction_id o d).0 in
      let ((v', at), _) =
        enqueue_refines stable_id now type interaction_id o d v
          (found-IsReadable d k current v (find_held d k current v held)) in
      let asked : KnowledgeJob = record current {
        rerun_requested = true;
        source_refresh = current.source_refresh && o.source_refresh;
      } in
      let here : find d' k ≡ some asked =
        ground (arith, at k, find_held d k current v held, held_fields d k current v held) in
      let held' : file d' processing job.job_id ≡ some (holds asked) =
        ground (arith, find-named d' k asked v' here, held_fields d k current v held) in
      (
        rerun later asked,
        ground (arith, (complete_refines later d' asked job v' held').1 job.job_id),
        ground (
          arith,
          (fail_refines later d' asked job v' held' category error transient).1 job.job_id,
        ),
        rerun-IsAskedAgain later current (current.source_refresh && o.source_refresh),
      )
