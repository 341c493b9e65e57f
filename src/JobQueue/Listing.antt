-- ===== src/JobQueue/Listing.antt =====
-- What `list` returns of a well-formed directory: each of its jobs once, in the order of ids.
use codeberg.Base.{
  ℕ, suc, ◌≤◌, ◌==◌, ◌≡◌, Option, none, some, arith, refl, List, [], ◌∷◌, All, find_first, keep_if,
  All-map,
}
use codeberg.JobQueue.Job.{JobStatus, KnowledgeJob}
use codeberg.JobQueue.Disk.{
  File, malformed, holds, Dir, Disk, dir, lookup, file, jobs, list, parsed,
}
use codeberg.JobQueue.Disk.Laws.{Above, lookup_below}
use codeberg.JobQueue.Invariant.{IsNamedBy}

abbrev Entries : JobStatus → Dir → Type 0
Entries s [] = Unit {0}
Entries s ((k, f) ∷ x) = IsNamedBy s k (some f) × Entries s x

named_tail :
    (s : JobStatus) (k : ℕ) (f : File) (x : Dir)
    → Above (suc k) x
    → ((j : ℕ) → IsNamedBy s j (lookup j ((k, f) ∷ x)))
    → (j : ℕ) → IsNamedBy s j (lookup j x)
unfolding lookup
named_tail s k f x a h j = ground (arith, h j, lookup_below (suc k) j x a)

named-Entries :
    (s : JobStatus) (n : ℕ) (x : Dir)
    → Above n x
    → ((j : ℕ) → IsNamedBy s j (lookup j x))
    → Entries s x
unfolding lookup
named-Entries s n [] a h = tt
named-Entries s n ((k, f) ∷ x) a h =
    (ground (arith, h k), named-Entries s (suc k) x a.1 (named_tail s k f x a.1 h))

abbrev pub opt_list : Option KnowledgeJob → List KnowledgeJob
opt_list none = []
opt_list (some job) = job ∷ []

abbrev pub Ascends : ℕ → List KnowledgeJob → Type 0
Ascends n [] = Unit {0}
Ascends n (job ∷ rest) = (n ≤ job.job_id) × Ascends (suc job.job_id) rest

Ascends-mono : {m n : ℕ} (l : List KnowledgeJob) → m ≤ n → Ascends n l → Ascends m l
Ascends-mono [] h a = tt
Ascends-mono (job ∷ rest) h a = (omega arith, a.1)

jobs-Ascends : (s : JobStatus) (n : ℕ) (x : Dir) → Above n x → Entries s x → Ascends n (jobs x)
unfolding jobs
jobs-Ascends s n [] a e = tt
jobs-Ascends s n ((k, malformed) ∷ x) a e =
    Ascends-mono (jobs x) (omega arith) (jobs-Ascends s (suc k) x a.1 e.1)
jobs-Ascends s n ((k, holds job) ∷ x) a e =
    (omega arith, Ascends-mono (jobs x) (omega arith) (jobs-Ascends s (suc k) x a.1 e.1))

keep_if-jobs :
    (s : JobStatus) (n j : ℕ) (x : Dir)
    → Above n x
    → Entries s x
    → keep_if (λ job. job.job_id == j) (jobs x) ≡ opt_list (parsed (lookup j x))
unfolding jobs lookup
keep_if-jobs s n j [] a e = refl
keep_if-jobs s n j ((k, malformed) ∷ x) a e =
    ground (arith, keep_if-jobs s (suc k) j x a.1 e.1, lookup_below (suc k) j x a.1)
keep_if-jobs s n j ((k, holds job) ∷ x) a e =
    ground (arith, keep_if-jobs s (suc k) j x a.1 e.1, lookup_below (suc k) j x a.1)

find_first-jobs :
    (s : JobStatus) (n j : ℕ) (x : Dir)
    → Above n x
    → Entries s x
    → find_first (λ job. job.job_id == j) (jobs x) ≡ parsed (lookup j x)
unfolding jobs lookup
find_first-jobs s n j [] a e = refl
find_first-jobs s n j ((k, malformed) ∷ x) a e =
    ground (arith, find_first-jobs s (suc k) j x a.1 e.1, lookup_below (suc k) j x a.1)
find_first-jobs s n j ((k, holds job) ∷ x) a e =
    ground (arith, find_first-jobs s (suc k) j x a.1 e.1, lookup_below (suc k) j x a.1)

jobs-filed :
    (s : JobStatus) (n : ℕ) (x : Dir)
    → Above n x
    → Entries s x
    → All (λ job. (lookup job.job_id x ≡ some (holds job)) × (n ≤ job.job_id)) (jobs x)
unfolding jobs lookup
jobs-filed s n [] a e = tt
jobs-filed s n ((k, malformed) ∷ x) a e =
    All-map (λ job h. (ground (arith, h.0, h.1), omega arith)) (jobs x)
      (jobs-filed s (suc k) x a.1 e.1)
jobs-filed s n ((k, holds job) ∷ x) a e = (
  (ground arith, omega arith),
  All-map (λ job h. (ground (arith, h.0, h.1), omega arith)) (jobs x)
      (jobs-filed s (suc k) x a.1 e.1),
)

-- The facts about one directory that the operations which list it rest on.
module _ (d : Disk) (s : JobStatus) (a : Above 0 (dir d s))
    (h : (k : ℕ) → IsNamedBy s k (file d s k)) where
  dir-Entries : Entries s (dir d s)
  unfolding file
  dir-Entries = named-Entries s 0 (dir d s) a h

  pub list-Ascends : Ascends 0 (list d s)
  unfolding list
  list-Ascends = jobs-Ascends s 0 (dir d s) a dir-Entries

  pub list-filed : All (λ job. file d s job.job_id ≡ some (holds job)) (list d s)
  unfolding list file
  list-filed = All-map (λ job h. h.0) (jobs (dir d s)) (jobs-filed s 0 (dir d s) a dir-Entries)

  pub find_first-list :
      (j : ℕ) → find_first (λ job. job.job_id == j) (list d s) ≡ parsed (file d s j)
  unfolding list file
  find_first-list j = find_first-jobs s 0 j (dir d s) a dir-Entries

  pub keep_if-list :
      (j : ℕ) → keep_if (λ job. job.job_id == j) (list d s) ≡ opt_list (parsed (file d s j))
  unfolding list file
  keep_if-list j = keep_if-jobs s 0 j (dir d s) a dir-Entries
