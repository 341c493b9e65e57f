-- ===== src/JobQueue/Recovery/Crash.antt =====
-- A crash between the two halves of `transition` (agent/src/core/learning/queue/storage.ts), and
-- the reconciliation at the next start.
use codeberg.Base.{
  ℕ, ◌≤◌, ◌<◌, ◌==◌, ◌≡◌, ◌≢◌, ◌⊎◌, true, false, none, some, arith, Bool-cases, Option-cases, inl,
  inr, ◌∙◌, ap, sym,
}
use codeberg.JobQueue.Job.{JobStatus, KnowledgeJob, same_status, status_index}
use codeberg.JobQueue.Disk.{holds, Disk, dir, file, find, write_json, transition}
use codeberg.JobQueue.Disk.Laws.{Above, file-write, write-IsOrdered}
use codeberg.JobQueue.Invariant.{
  IsNamedBy, IsReadable, IsWellFormed, copies, find-transition, find-named, found-IsReadable,
  find_filed, find_of_copies, copies_of_find-none,
}
use codeberg.JobQueue.Recovery.{beats, reconcile_states}
use codeberg.JobQueue.Recovery.Reconcile.{reconcile_states_survivor}

module _ (d : Disk) (k : ℕ) (from to : JobStatus) (old job : KnowledgeJob) (v : IsWellFormed d)
    (there : file d from k ≡ some (holds old)) (away : same_status from to ≡ false)
    (id : job.job_id ≡ k) (st : job.status ≡ to)
    (newer : (old.updated_at < job.updated_at)
      ⊎ ((old.updated_at ≡ job.updated_at) × (status_index from < status_index to))) where
  -- What a crash after the write and before the unlink leaves.
  crashed : Disk
  crashed = write_json d to k job

  crashed-named : (s : JobStatus) (j : ℕ) → IsNamedBy s j (file crashed s j)
  unfolding crashed
  crashed-named s j = simp file-write (ground (arith, v.named s j))

  crashed-IsReadable : (j : ℕ) → IsReadable d j → IsReadable crashed j
  unfolding crashed
  crashed-IsReadable j r s m = ground (arith, r s, file-write d to s k j (holds job))

  job-beats : beats job old ≡ true
  unfolding beats
  job-beats = ground (arith, v.named from k)

  moved_one :
      (w : KnowledgeJob) → beats job w ≡ false → file crashed w.status k ≡ some (holds w) → w ≡ job
  unfolding crashed
  moved_one w b f = ground (arith, file-write d to w.status k k (holds job), job-beats, v.single k)

  crashed-ordered : (s : JobStatus) → Above 0 (dir crashed s)
  unfolding crashed
  crashed-ordered = write-IsOrdered d to k (holds job) v.ordered

  same_one :
      (j : ℕ) (before w : KnowledgeJob)
      → k ≢ j
      → find d j ≡ some before
      → file crashed w.status j ≡ some (holds w)
      → w ≡ before
  unfolding crashed
  same_one j before w other found f =
      ground
        (arith, file-write d to w.status k j (holds job), find-named d j before v found, v.single j)

  from_is_there : file d from k ≢ none
  from_is_there e = cc

  -- The case of the id that was moving, and of any other.
  recovered_moving : find (reconcile_states crashed) k ≡ some job
  unfolding crashed
  recovered_moving =
      let r = crashed-IsReadable k (found-IsReadable d k old v (find_filed d from k old v there)) in
      let (_, survives, _) = reconcile_states_survivor crashed crashed-ordered crashed-named k r in
      let (w, found, newest, filed) =
        survives to job (ground (arith, file-write d to to k k (holds job))) in
      found ∙ ap some (moved_one w newest filed)

  untouched : (j : ℕ) → k ≢ j → copies d j ≡ 0 → copies crashed j ≡ 0
  unfolding crashed
  untouched j other e = simp file-write (ground arith)

  recovered_other : (j : ℕ) → IsReadable d j → k ≢ j → find (reconcile_states crashed) j ≡ find d j
  unfolding crashed
  recovered_other j r other =
      let (_, survives, empty) =
        reconcile_states_survivor crashed crashed-ordered crashed-named j
          (crashed-IsReadable j r) in
      elim (Option-cases (find d j)) [
        | inl absent ↦
            find_of_copies (reconcile_states crashed) j
              (empty (untouched j other (copies_of_find-none d j r absent)))
            ∙ sym absent
        | inr (before, found) ↦
            let (here, _) = find-named d j before v found in
            let (w, found', _, filed) =
              survives before.status before
                (ground (arith, file-write d to before.status k j (holds job))) in
            found' ∙ ap some (same_one j before w other found filed) ∙ sym found
      ]

  -- After a crash between the write and the unlink of a transition that moves a held job to a
  -- newer version, reconcileStates leaves every readable job as the completed transition would, in
  -- at most one file.
  pub crash_recovered :
      (j : ℕ)
      → IsReadable d j
      → (find (reconcile_states (write_json d to k job)) j ≡ find (transition d k from to job) j)
        × (copies (reconcile_states (write_json d to k job)) j ≤ 1)
  unfolding crashed
  crash_recovered j r = (
    elim (Bool-cases (k == j)) [
      | inl same ↦
          ground (arith, recovered_moving, find-transition d k j from to job v from_is_there)
      | inr other ↦
          ground (arith, recovered_other j r, find-transition d k j from to job v from_is_there)
    ],
    (reconcile_states_survivor crashed crashed-ordered crashed-named j (crashed-IsReadable j r)).0,
  )
