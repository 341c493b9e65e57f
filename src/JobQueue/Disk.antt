-- ===== src/JobQueue/Disk.antt =====
-- The directories of job files, `jobs/<status>` under the queue's root, and the operations on
-- them: agent/src/core/learning/queue/storage.ts, with `writeJsonAtomic` of
-- agent/src/core/learning/fs.ts and the calls of node:fs that the queue makes.
--
-- A directory is the list of its `.json` files in the order that `list` sorts their names. Each
-- call is one atomic step, as `rename` and `writeJsonAtomic` are; a write that the file system
-- refuses ends its operation there and is not modelled.
pub mod Laws
use codeberg.Base.{
  ℕ, ◌==◌, ltb, if◌then◌else◌, Bool, true, false, not, ◌||◌, Option, none, some, List, [], ◌∷◌,
}
use codeberg.JobQueue.Job.{
  JobStatus, pending, processing, completed, failed, KnowledgeJob, same_status,
}

-- The text of a file: a job that `JSON.parse` reads, or text that it refuses.
pub data File : Type 0 where
  malformed : File
  holds : KnowledgeJob → File

abbrev pub Dir : Type 0
Dir = List (ℕ × File)

-- A directory that does not exist yet is an empty one.
pub record Disk : Type 0 where
  pub pending_dir : Dir
  pub processing_dir : Dir
  pub completed_dir : Dir
  pub failed_dir : Dir

abbrev pub dir : Disk → JobStatus → Dir
dir d pending = d.pending_dir
dir d processing = d.processing_dir
dir d completed = d.completed_dir
dir d failed = d.failed_dir

abbrev pub set_dir : Disk → JobStatus → Dir → Disk
set_dir d pending x = record d { pending_dir = x }
set_dir d processing x = record d { processing_dir = x }
set_dir d completed x = record d { completed_dir = x }
set_dir d failed x = record d { failed_dir = x }

unfoldable pub lookup : ℕ → Dir → Option File
lookup k [] = none
lookup k ((j, f) ∷ x) = if j == k then some f else lookup k x

unfoldable pub put : ℕ → File → Dir → Dir
put k f [] = (k, f) ∷ []
put k f ((j, g) ∷ x) =
    if ltb k j then (k, f) ∷ (j, g) ∷ x else if j == k then (k, f) ∷ x else (j, g) ∷ put k f x

unfoldable pub remove : ℕ → Dir → Dir
remove k [] = []
remove k ((j, g) ∷ x) = if j == k then remove k x else (j, g) ∷ remove k x

-- The file of a job id in the directory of a status: `path` names it.
unfoldable pub file : Disk → JobStatus → ℕ → Option File
file d s k = lookup k (dir d s)

unfoldable pub write : Disk → JobStatus → ℕ → File → Disk
write d s k f = set_dir d s (put k f (dir d s))

abbrev pub write_json : Disk → JobStatus → ℕ → KnowledgeJob → Disk
write_json d s k job = write d s k (holds job)

-- `unlink` with its error caught: a file that is not there is no change.
unfoldable pub unlink : Disk → JobStatus → ℕ → Disk
unlink d s k = set_dir d s (remove k (dir d s))

-- `rename` of a job's file from one directory to another; `none` is its ENOENT.
unfoldable pub rename : Disk → JobStatus → JobStatus → ℕ → Option Disk
rename d from to k = elim (file d from k) [
  | none ↦ none
  | some f ↦ some (write (unlink d from k) to k f)
]

abbrev pub parsed : Option File → Option KnowledgeJob
parsed none = none
parsed (some malformed) = none
parsed (some (holds job)) = some job

-- The jobs of a directory that can be read, in the order of their names.
unfoldable pub jobs : Dir → List KnowledgeJob
jobs [] = []
jobs ((k, malformed) ∷ x) = jobs x
jobs ((k, holds job) ∷ x) = job ∷ jobs x

unfoldable pub list : Disk → JobStatus → List KnowledgeJob
list d s = jobs (dir d s)

-- The first job under this id, in the order of `find`.
abbrev pub or_else : Option KnowledgeJob → Option KnowledgeJob → Option KnowledgeJob
or_else none o = o
or_else (some job) o = some job

unfoldable pub find : Disk → ℕ → Option KnowledgeJob
find d k = or_else (parsed (file d pending k)) (
    or_else (parsed (file d processing k))
      (or_else (parsed (file d completed k)) (parsed (file d failed k))))

unfoldable pub transition : Disk → ℕ → JobStatus → JobStatus → KnowledgeJob → Disk
transition d k from to job =
    if same_status from to then write_json d to k job else unlink (write_json d to k job) from k
