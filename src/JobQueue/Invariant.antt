-- ===== src/JobQueue/Invariant.antt =====
-- The well-formedness of the queue's directories, kept by every operation of
-- agent/src/core/learning/queue/ that a worker makes on a job that it holds.
use codeberg.Base.{
  ℕ, ◌+◌, ◌≤◌, ◌==◌, ◌≡◌, ◌≢◌, ◌⊎◌, if◌then◌else◌, true, false, Option, none, some, arith,
  Bool-cases, inl, inr,
}
use codeberg.JobQueue.Job.{
  JobStatus, pending, processing, completed, failed, KnowledgeJob, same_status,
}
use codeberg.JobQueue.Disk.{File, malformed, holds, Disk, file, write_json, write, find, transition}
use codeberg.JobQueue.Disk.Laws.{
  file-write, file-transition, IsOrdered, write-IsOrdered, unlink-IsOrdered,
}

abbrev pub present : Option File → ℕ
present none = 0
present (some f) = 1

-- In how many directories a job id has a file.
abbrev pub copies : Disk → ℕ → ℕ
copies d k =
    present (file d pending k)
    + present (file d processing k)
    + present (file d completed k)
    + present (file d failed k)

-- A file holds the job that its path names.
abbrev pub IsNamedBy : JobStatus → ℕ → Option File → Type 0
IsNamedBy s k none = Unit {0}
IsNamedBy s k (some malformed) = Unit {0}
IsNamedBy s k (some (holds job)) = (job.job_id ≡ k) × (job.status ≡ s)

pub record IsWellFormed (d : Disk) : Type 0 where
  pub ordered : IsOrdered d
  pub named : (s : JobStatus) (k : ℕ) → IsNamedBy s k (file d s k)
  pub single : (k : ℕ) → copies d k ≤ 1

-- The worker's lease is still its own: the job's file is where `claim` put it.
abbrev pub IsHeld : Disk → ℕ → Type 0
IsHeld d k = (job : KnowledgeJob) × (file d processing k ≡ some (holds job))

transition-IsOrdered :
    (d : Disk) (k : ℕ) (from to : JobStatus) (job : KnowledgeJob)
    → IsOrdered d
    → IsOrdered (transition d k from to job)
unfolding transition
transition-IsOrdered d k from to job o = elim (Bool-cases (same_status from to)) [
  | inl same ↦ rw (same, transition) (write-IsOrdered d to k (holds job) o)
  | inr other ↦
      rw (other, transition)
        (unlink-IsOrdered (write d to k (holds job)) from k (write-IsOrdered d to k (holds job) o))
]

transition-single :
    (d : Disk) (k j : ℕ) (from to : JobStatus) (job : KnowledgeJob)
    → copies d j ≤ 1
    → file d from k ≢ none
    → copies (transition d k from to job) j ≤ 1
transition-single d k j from to job c h = simp file-transition (ground arith)

-- A job that is in the directory `from` may move to any other.
pub transition-IsWellFormed :
    (d : Disk) (k : ℕ) (from to : JobStatus) (job : KnowledgeJob)
    → IsWellFormed d
    → file d from k ≢ none
    → job.job_id ≡ k
    → job.status ≡ to
    → IsWellFormed (transition d k from to job)
transition-IsWellFormed d k from to job v h id st = record {
  ordered = transition-IsOrdered d k from to job v.ordered;
  named = λ s j. simp file-transition (ground (arith, v.named s j));
  single = λ j. transition-single d k j from to job (v.single j) h;
}

-- Under well-formedness `find` gives the job that moved, and all others as before.
pub find-transition :
    (d : Disk) (k j : ℕ) (from to : JobStatus) (job : KnowledgeJob)
    → IsWellFormed d
    → file d from k ≢ none
    → find (transition d k from to job) j ≡ (if k == j then some job else find d j)
unfolding find
find-transition d k j from to job v h = simp file-transition (ground (arith, v.single k))

pub find_held :
    (d : Disk) (k : ℕ) (job : KnowledgeJob)
    → IsWellFormed d
    → file d processing k ≡ some (holds job)
    → find d k ≡ some job
unfolding find
find_held d k job v h = ground (arith, v.single k)

pub held_fields :
    (d : Disk) (k : ℕ) (job : KnowledgeJob)
    → IsWellFormed d
    → file d processing k ≡ some (holds job)
    → (job.job_id ≡ k) × (job.status ≡ processing)
held_fields d k job v h = ground (arith, v.named processing k)

-- No file of this id holds text that cannot be parsed.
abbrev pub IsReadable : Disk → ℕ → Type 0
IsReadable d k = (s : JobStatus) → file d s k ≢ some malformed

file_of_find-none :
    (d : Disk) (k : ℕ) (s : JobStatus) → IsReadable d k → find d k ≡ none → file d s k ≡ none
unfolding find
file_of_find-none d k s r e = ground (arith, r pending, r processing, r completed, r failed)

-- An id that is nowhere gets its first file.
pub write-IsWellFormed :
    (d : Disk) (k : ℕ) (job : KnowledgeJob)
    → IsWellFormed d
    → IsReadable d k
    → find d k ≡ none
    → job.job_id ≡ k
    → job.status ≡ pending
    → IsWellFormed (write_json d pending k job)
      × ((j : ℕ) → find (write_json d pending k job) j ≡ (if k == j then some job else find d j))
unfolding find
write-IsWellFormed d k job v r e id st = (
  record {
    ordered = write-IsOrdered d pending k (holds job) v.ordered;
    named = λ s j. simp file-write (ground (arith, v.named s j));
    single = λ j. simp file-write (
        ground (
          arith,
          v.single j,
          file_of_find-none d k processing r e,
          file_of_find-none d k completed r e,
          file_of_find-none d k failed r e,
        ));
  },
  λ j. simp file-write (ground arith),
)

-- The job that `find` gives stands in the directory of its own status.
pub find-named :
    (d : Disk) (k : ℕ) (job : KnowledgeJob)
    → IsWellFormed d
    → find d k ≡ some job
    → (file d job.status k ≡ some (holds job)) × (job.job_id ≡ k)
unfolding find
find-named d k job v e =
    ground (arith, v.named pending k, v.named processing k, v.named completed k, v.named failed k)

pub found-IsReadable :
    (d : Disk) (k : ℕ) (job : KnowledgeJob) → IsWellFormed d → find d k ≡ some job → IsReadable d k
found-IsReadable d k job v e s m =
    let (there, _) = find-named d k job v e in other (Bool-cases (same_status s job.status)) there
  where
    other :
        (same_status s job.status ≡ true) ⊎ (same_status s job.status ≡ false)
        → file d job.status k ≡ some (holds job)
        → ⊥
    other b there = ground (arith, v.single k)

pub copies_of_find-none : (d : Disk) (k : ℕ) → IsReadable d k → find d k ≡ none → copies d k ≡ 0
copies_of_find-none d k r e = simp (λ (s : JobStatus). file_of_find-none d k s r e)

pub find_filed :
    (d : Disk) (s : JobStatus) (k : ℕ) (job : KnowledgeJob)
    → IsWellFormed d
    → file d s k ≡ some (holds job)
    → find d k ≡ some job
unfolding find
find_filed d s k job v h = ground (arith, v.single k)

pub find_of_copies : (d : Disk) (k : ℕ) → copies d k ≡ 0 → find d k ≡ none
unfolding find
find_of_copies d k e = ground arith
