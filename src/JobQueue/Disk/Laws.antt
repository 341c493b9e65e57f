-- ===== src/JobQueue/Disk/Laws.antt =====
-- What one call on the directories does to every file, in the form that the proofs of the queue's
-- operations rewrite with.
use codeberg.Base.{
  ℕ, ◌==◌, ◌<◌, if◌then◌else◌, false, ◌&&◌, Option, none, some, [], ◌∷◌, ◌≡◌, refl, arith,
  Option-cases, Bool-cases, inl, inr, ◌↔◌, ◌≤◌, suc, In, here, there,
}
use codeberg.JobQueue.Job.{JobStatus, KnowledgeJob, same_status}
use codeberg.JobQueue.Disk.{
  File, malformed, holds, Dir, Disk, dir, set_dir, lookup, put, remove, file, write, unlink, rename,
  transition, jobs, list,
}

lookup-put :
    (k j : ℕ) (f : File) (x : Dir) → lookup j (put k f x) ≡ (if k == j then some f else lookup j x)
unfolding lookup put
lookup-put k j f [] = refl
lookup-put k j f ((i, g) ∷ x) = ground (arith, lookup-put k j f x)

lookup-remove : (k j : ℕ) (x : Dir) → lookup j (remove k x) ≡ (if k == j then none else lookup j x)
unfolding lookup remove
lookup-remove k j [] = ground arith
lookup-remove k j ((i, g) ∷ x) = ground (arith, lookup-remove k j x)

dir-set_dir :
    (d : Disk) (s t : JobStatus) (x : Dir)
    → dir (set_dir d s x) t ≡ (if same_status s t then x else dir d t)
dir-set_dir d s t x = ground arith

-- A write is seen at its own path and nowhere else.
pub file-write :
    (d : Disk) (s t : JobStatus) (k j : ℕ) (f : File)
    → file (write d s k f) t j ≡ (if same_status s t && k == j then some f else file d t j)
unfolding file write
file-write d s t k j f =
    ground (arith, dir-set_dir d s t (put k f (dir d s)), lookup-put k j f (dir d s))

-- So is a removal.
pub file-unlink :
    (d : Disk) (s t : JobStatus) (k j : ℕ)
    → file (unlink d s k) t j ≡ (if same_status s t && k == j then none else file d t j)
unfolding file unlink
file-unlink d s t k j =
    ground (arith, dir-set_dir d s t (remove k (dir d s)), lookup-remove k j (dir d s))

-- What a job that moves between two directories leaves behind, whatever order the calls take.
abbrev pub moved :
    JobStatus
    → JobStatus
    → ℕ
    → KnowledgeJob
    → (JobStatus → ℕ → Option File)
    → JobStatus
    → ℕ
    → Option File
moved from to k job before t j =
    if k == j
    then (if same_status to t
        then some (holds job)
        else if same_status from t
        then none
        else before t j)
    else before t j

pub file-transition :
    (d : Disk) (from to t : JobStatus) (k j : ℕ) (job : KnowledgeJob)
    → file (transition d k from to job) t j ≡ moved from to k job (file d) t j
unfolding transition
file-transition d from to t k j job =
    ground
      (arith, file-write d to t k j (holds job), file-unlink (write d to k (holds job)) from t k j)

-- A claim, once its rename has succeeded.
pub file-rename :
    (d d' : Disk) (from to t : JobStatus) (k j : ℕ) (job : KnowledgeJob)
    → rename d from to k ≡ some d'
    → same_status from to ≡ false
    → file (write d' to k (holds job)) t j ≡ moved from to k job (file d) t j
unfolding rename
file-rename d d' from to t k j job e n = elim (Option-cases (file d from k)) [
  | inl missing ↦ let bad = rw (missing, rename) at e in cc
  | inr (f, found) ↦ ground (
    arith,
    file-write d' to t k j (holds job),
    file-write (unlink d from k) to t k j f,
    file-unlink d from t k j,
  )
]

-- A rename fails exactly when the file is not there.
pub rename-none_iff :
    (d : Disk) (from to : JobStatus) (k : ℕ) → (rename d from to k ≡ none) ↔ (file d from k ≡ none)
unfolding rename
rename-none_iff d from to k = (λ e. ground arith, λ e. ground arith)

-- Every directory lists each name once, in ascending order.
abbrev pub Above : ℕ → Dir → Type 0
Above n [] = Unit {0}
Above n ((k, f) ∷ x) = (n ≤ k) × Above (suc k) x

Above-mono : {m n : ℕ} (x : Dir) → m ≤ n → Above n x → Above m x
Above-mono [] h a = tt
Above-mono ((k, f) ∷ x) h a = (omega arith, a.1)

put-Above : (n k : ℕ) (f : File) (x : Dir) → n ≤ k → Above n x → Above n (put k f x)
unfolding put
put-Above n k f [] h a = (h, tt)
put-Above n k f ((j, g) ∷ x) h a = ground (arith, put-Above (suc j) k f x)

remove-Above : (n k : ℕ) (x : Dir) → Above n x → Above n (remove k x)
unfolding remove
remove-Above n k [] a = tt
remove-Above n k ((j, g) ∷ x) a =
    ground (arith, remove-Above (suc j) k x a.1, Above-mono {m = n} {n = suc j} (remove k x))

pub lookup_below : (n k : ℕ) (x : Dir) → Above n x → k < n → lookup k x ≡ none
unfolding lookup
lookup_below n k [] a h = refl
lookup_below n k ((j, f) ∷ x) a h = ground (arith, lookup_below (suc j) k x a.1)

abbrev pub IsOrdered : Disk → Type 0
IsOrdered d = (s : JobStatus) → Above 0 (dir d s)

pub write-IsOrdered :
    (d : Disk) (s : JobStatus) (k : ℕ) (f : File) → IsOrdered d → IsOrdered (write d s k f)
unfolding write
write-IsOrdered d s k f o t = ground (
  arith,
  o t,
  dir-set_dir d s t (put k f (dir d s)),
  put-Above 0 k f (dir d s) (omega arith) (o s),
)

pub unlink-IsOrdered : (d : Disk) (s : JobStatus) (k : ℕ) → IsOrdered d → IsOrdered (unlink d s k)
unfolding unlink
unlink-IsOrdered d s k o t =
    ground (arith, o t, dir-set_dir d s t (remove k (dir d s)), remove-Above 0 k (dir d s) (o s))

In-jobs-Above :
    (n : ℕ) (x : Dir) {job : KnowledgeJob}
    → Above n x
    → In job (jobs x)
    → (k : ℕ) × (lookup k x ≡ some (holds job)) × (n ≤ k)
unfolding jobs lookup
In-jobs-Above n [] a i = elim i [ ]
In-jobs-Above n ((k, malformed) ∷ x) a i =
    let (j, e, h) = In-jobs-Above (suc k) x a.1 i in (j, ground arith, omega arith)
In-jobs-Above n ((k, holds job) ∷ x) a here = (k, ground arith, a.0)
In-jobs-Above n ((k, holds job) ∷ x) a (there i) =
    let (j, e, h) = In-jobs-Above (suc k) x a.1 i in (j, ground arith, omega arith)

-- The jobs that `list` returns are those that can be read under a name of the directory.
pub In-list :
    (d : Disk) (s : JobStatus) {job : KnowledgeJob}
    → IsOrdered d
    → In job (list d s)
    → (k : ℕ) × (file d s k ≡ some (holds job))
unfolding list file
In-list d s o i = let (k, e, _) = In-jobs-Above 0 (dir d s) (o s) i in (k, e)

In-jobs_of_lookup :
    (k : ℕ) (x : Dir) {job : KnowledgeJob} → lookup k x ≡ some (holds job) → In job (jobs x)
unfolding jobs lookup
In-jobs_of_lookup k [] e = absurd (cc)
In-jobs_of_lookup k ((j, malformed) ∷ x) e = In-jobs_of_lookup k x (ground arith)
In-jobs_of_lookup k ((j, holds other) ∷ x) {job} e = elim (Bool-cases (j == k)) [
  | inl hit ↦ let same : other ≡ job = ground arith in rw same here
  | inr miss ↦ there (In-jobs_of_lookup k x (ground arith))
]

pub In-list_of_file :
    (d : Disk) (s : JobStatus) (k : ℕ) {job : KnowledgeJob}
    → file d s k ≡ some (holds job)
    → In job (list d s)
unfolding list file
In-list_of_file d s k e = In-jobs_of_lookup k (dir d s) e
