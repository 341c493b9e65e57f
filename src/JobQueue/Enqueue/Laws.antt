-- ===== src/JobQueue/Enqueue/Laws.antt =====
-- What `enqueue` leaves in the queue, as a function of the job that was there.
use Prim.Native.String.{String}
use codeberg.Base.{
  ℕ, ◌==◌, ◌≡◌, ◌⊎◌, if◌then◌else◌, true, false, Option, none, some, arith, Option-cases, inl, inr,
  refl, ◌&&◌, ◌||◌, not, Bool-cases, subst,
}
use codeberg.JobQueue.Changes.{IsUntried, Enqueues, creates, requeues_it, marks, retains}
use codeberg.JobQueue.Job.{
  pending, processing, completed, failed, JobStatus, JobType, KnowledgeJob, same_status,
}
use codeberg.JobQueue.Disk.{Disk, find, transition}
use codeberg.JobQueue.Invariant.{
  IsWellFormed, IsReadable, write-IsWellFormed, transition-IsWellFormed, find-transition,
  find-named,
}
use codeberg.JobQueue.Enqueue.{
  EnqueueOptions, is_finished, retain_existing, fresh_job, requeued_job, requeue, enqueue_over,
  enqueue,
}

processing_lem : (s : JobStatus) → same_status s processing ≡ true → s ≡ processing
processing_lem pending h = absurd (ground arith)
processing_lem processing h = refl
processing_lem failed h = absurd (ground arith)
processing_lem completed h = absurd (ground arith)

is_finished-cases : (s : JobStatus) → is_finished s ≡ true → (s ≡ completed) ⊎ (s ≡ failed)
is_finished-cases pending h = absurd (ground arith)
is_finished-cases processing h = absurd (ground arith)
is_finished-cases failed h = inr refl
is_finished-cases completed h = inl refl

pending_lem :
    (s : JobStatus) → same_status s processing ≡ false → is_finished s ≡ false → s ≡ pending
pending_lem pending h f = refl
pending_lem processing h f = absurd (ground arith)
pending_lem failed h f = absurd (ground arith)
pending_lem completed h f = absurd (ground arith)

module _ (stable_id : JobType → String → ℕ) (now : ℕ) (type : JobType) (interaction_id : String)
    (o : EnqueueOptions) where
  -- The job that stands under the id after `enqueue`.
  abbrev pub enqueued : Option KnowledgeJob → KnowledgeJob
  enqueued none = fresh_job stable_id now type interaction_id o
  enqueued (some e) =
      if same_status e.status processing && o.requeue_completed
      then record e {
        rerun_requested = true;
        source_refresh = e.source_refresh && o.source_refresh;
      }
      else if o.requeue_completed && is_finished e.status
      then requeued_job stable_id now e type interaction_id o
      else if e.source_refresh && o.requeue_completed && not o.source_refresh
      then record e { source_refresh = false }
      else e

  fresh_job-IsUntried :
      IsUntried now
        (stable_id type interaction_id)
        type
        interaction_id
        o.source_refresh
        (fresh_job stable_id now type interaction_id o)
  fresh_job-IsUntried = record {
    is_pending = refl;
    no_attempts = refl;
    no_due = refl;
    no_lease = refl;
    no_rerun = refl;
    same_id = refl;
    same_type = refl;
    same_interaction = refl;
    same_refresh = refl;
    updated = refl;
  }

  requeued_job-IsUntried :
      (e : KnowledgeJob)
      → o.requeue_completed ≡ true
      → IsUntried now
          (stable_id type interaction_id)
          type
          interaction_id
          o.source_refresh
          (requeued_job stable_id now e type interaction_id o)
  requeued_job-IsUntried e again = record {
    is_pending = refl;
    no_attempts = ground arith;
    no_due = refl;
    no_lease = refl;
    no_rerun = refl;
    same_id = refl;
    same_type = refl;
    same_interaction = refl;
    same_refresh = refl;
    updated = refl;
  }

  abbrev Makes : Option KnowledgeJob → KnowledgeJob → Type 0
  Makes e c =
      Enqueues now (stable_id type interaction_id) type interaction_id o.source_refresh
        o.requeue_completed e c

  retained-Makes :
      (e : KnowledgeJob)
      → (o.requeue_completed ≡ false) ⊎ (e.status ≡ pending)
      → Makes (some e) (
          if e.source_refresh && o.requeue_completed && not o.source_refresh
          then record e { source_refresh = false }
          else e)
  retained-Makes e h =
      let kept : Makes (some e) (record e {
        source_refresh = e.source_refresh && (not o.requeue_completed || o.source_refresh);
      }) =
        retains e h in
      elim (Bool-cases (e.source_refresh && o.requeue_completed && not o.source_refresh)) [
        | inl turned ↦
            let off : (e.source_refresh && (not o.requeue_completed || o.source_refresh)) ≡ false =
              ground arith in
            rw turned (subst (λ b. Makes (some e) (record e { source_refresh = b })) off kept)
        | inr same ↦
            let on : (e.source_refresh && (not o.requeue_completed || o.source_refresh))
                ≡ e.source_refresh =
              ground arith in
            rw same (subst (λ b. Makes (some e) (record e { source_refresh = b })) on kept)
      ]

  enqueued-Makes : (e : Option KnowledgeJob) → Makes e (enqueued e)
  enqueued-Makes none =
      creates (fresh_job stable_id now type interaction_id o) fresh_job-IsUntried refl refl
  enqueued-Makes (some e) =
      elim (Bool-cases (same_status e.status processing && o.requeue_completed)) [
        | inl held ↦ rw held (marks e (ground arith) (processing_lem e.status (ground arith)))
        | inr free ↦ elim (Bool-cases (o.requeue_completed && is_finished e.status)) [
          | inl over ↦
              let again : o.requeue_completed ≡ true = ground arith in
              rw (free, over)
                (requeues_it e (requeued_job stable_id now e type interaction_id o) again
                  (is_finished-cases e.status (ground arith)) (requeued_job-IsUntried e again) refl)
          | inr waits ↦
              rw (free, waits)
                (retained-Makes e (elim (Bool-cases o.requeue_completed) [
                  | inr never ↦ inl never
                  | inl again ↦ inr (pending_lem e.status (ground arith) (ground arith))
                ]))
        ]
      ]

  abbrev Leaves : Disk → KnowledgeJob → Disk → Type 0
  Leaves d job d' =
      IsWellFormed d'
      × ((j : ℕ) → find d' j ≡ (if stable_id type interaction_id == j then some job else find d j))

  -- An existing job is rewritten in place or moved to pending.
  enqueue_over-transition :
      (d : Disk) (e : KnowledgeJob)
      → e.job_id ≡ stable_id type interaction_id
      → (((enqueue_over stable_id now (some e) type interaction_id o d).0
            ≡ transition d
                (stable_id type interaction_id)
                e.status
                (enqueued (some e)).status
                (enqueued (some e)))
          ⊎ (((enqueue_over stable_id now (some e) type interaction_id o d).0 ≡ d)
              × (enqueued (some e) ≡ e)))
  unfolding enqueue_over requeue retain_existing transition
  enqueue_over-transition d e id = ground arith

  enqueue_over-Leaves :
      (d : Disk) (e : KnowledgeJob)
      → IsWellFormed d
      → find d (stable_id type interaction_id) ≡ some e
      → Leaves d (enqueued (some e)) (enqueue_over stable_id now (some e) type interaction_id o d).0
  enqueue_over-Leaves d e v h =
      let (there, id) = find-named d (stable_id type interaction_id) e v h in
      elim (enqueue_over-transition d e id) [
        | inl moves ↦ rw moves (
          transition-IsWellFormed d (stable_id type interaction_id) e.status _ (enqueued (some e)) v
              (λ gone. cc) (ground arith) refl,
          λ j.
              find-transition d (stable_id type interaction_id) j e.status _ (enqueued (some e)) v
                (λ gone. cc),
        )
        | inr (same, kept) ↦ rw (same, kept) (v, λ j. ground arith)
      ]

  enqueue-Leaves :
      (d : Disk)
      → IsWellFormed d
      → IsReadable d (stable_id type interaction_id)
      → Leaves d
          (enqueued (find d (stable_id type interaction_id)))
          (enqueue stable_id now type interaction_id o d).0
  unfolding enqueue
  enqueue-Leaves d v r = elim (Option-cases (find d (stable_id type interaction_id))) [
    | inl absent ↦
        rw (absent, enqueue)
          (write-IsWellFormed d (stable_id type interaction_id)
            (fresh_job stable_id now type interaction_id o) v r absent refl refl)
    | inr (e, found) ↦ rw (found, enqueue) (enqueue_over-Leaves d e v found)
  ]

  -- On well-formed directories where the id is readable, enqueue keeps them well-formed and
  -- changes no other job. Under the id it leaves a new pending job if there was none; a completed
  -- or failed one as pending, without attempts, lease, delay or rerun flag, if the options
  -- requeue; a processing one with the rerun flag if they requeue; and otherwise the job there,
  -- whose source is no longer refreshed if they requeue without a refresh.
  pub enqueue_refines :
      (d : Disk)
      → IsWellFormed d
      → IsReadable d (stable_id type interaction_id)
      → Leaves d
          (enqueued (find d (stable_id type interaction_id)))
          (enqueue stable_id now type interaction_id o d).0
        × Makes
            (find d (stable_id type interaction_id))
            (enqueued (find d (stable_id type interaction_id)))
  enqueue_refines d v r =
      (enqueue-Leaves d v r, enqueued-Makes (find d (stable_id type interaction_id)))
