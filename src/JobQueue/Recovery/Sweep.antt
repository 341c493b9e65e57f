-- ===== src/JobQueue/Recovery/Sweep.antt =====
-- What the two recovering loops do to every job, and how many they report.
use codeberg.Base.{
  ℕ, suc, ◌<◌, ◌==◌, ◌≡◌, ◌≢◌, if◌then◌else◌, Bool, true, false, not, Option, none, some, arith,
  refl, List, [], ◌∷◌, All, find_first, keep_if, length, Bool-cases, inl, inr, ◌⊎◌, ap, subst, sym,
  Option-cases,
}
use codeberg.JobQueue.Job.{JobStatus, pending, processing, failed, KnowledgeJob, same_status}
use codeberg.JobQueue.Changes.{IsSameWork-refl, IsRecovered}
use codeberg.JobQueue.Disk.{holds, Disk, file, list, find, parsed, transition}
use codeberg.JobQueue.Disk.Laws.{file-transition}
use codeberg.JobQueue.Listing.{Ascends, list-Ascends, list-filed, find_first-list}
use codeberg.JobQueue.Invariant.{
  IsWellFormed, transition-IsWellFormed, find-transition, find_held, held_fields, find-named,
  find_filed,
}
use codeberg.JobQueue.Recovery.{
  sweep, recover_expired, recovered, is_leased, recover_retryable_failures, retried, is_given_up,
}

module _ (from : JobStatus) (skips : KnowledgeJob → Bool) (next : KnowledgeJob → KnowledgeJob)
    (away : same_status from pending ≡ false)
    (same_id : (job : KnowledgeJob) → (next job).job_id ≡ job.job_id)
    (is_pending : (job : KnowledgeJob) → (next job).status ≡ pending) where
  abbrev IsFiled : Disk → List KnowledgeJob → Type 0
  IsFiled d l = All (λ job. file d from job.job_id ≡ some (holds job)) l

  IsFiled-after :
      (d : Disk) (k : ℕ) (job : KnowledgeJob) (l : List KnowledgeJob)
      → Ascends (suc k) l
      → IsFiled d l
      → IsFiled (transition d k from pending job) l
  IsFiled-after d k job [] a f = tt
  IsFiled-after d k job (x ∷ l) a f =
      (rw file-transition (ground (arith, f.0)), IsFiled-after d k job l (ascends l a.1) f.1)
    where
      ascends : (m : List KnowledgeJob) → Ascends (suc x.job_id) m → Ascends (suc k) m
      ascends [] b = tt
      ascends (y ∷ m) b = (omega arith, b.1)

  -- The job that stands under an id, given the listed one and the one before.
  abbrev swept : Option KnowledgeJob → Option KnowledgeJob → Option KnowledgeJob
  swept none before = before
  swept (some job) before = if skips job then before else some (next job)

  listed_above :
      (n j : ℕ) (l : List KnowledgeJob)
      → Ascends n l
      → j < n
      → find_first (λ job. job.job_id == j) l ≡ none
  listed_above n j [] a h = refl
  listed_above n j (job ∷ l) a h = ground (arith, listed_above (suc job.job_id) j l a.1)

  sweep_refines :
      (n : ℕ) (l : List KnowledgeJob) (d : Disk)
      → IsWellFormed d
      → Ascends n l
      → IsFiled d l
      → IsWellFormed (sweep from skips next l d).0
        × ((j : ℕ)
            → find (sweep from skips next l d).0 j
              ≡ swept (find_first (λ job. job.job_id == j) l) (find d j))
        × ((sweep from skips next l d).1 ≡ length (keep_if (λ job. not (skips job)) l))
  unfolding sweep
  sweep_refines n [] d v a f = (v, λ j. refl, refl)
  sweep_refines n (job ∷ l) d v a f = elim (Bool-cases (skips job)) [
    | inl skip ↦
        let (v', at, count) = sweep_refines (suc job.job_id) l d v a.1 f.1 in
        rw (skip, sweep)
          (
            v',
            λ j. ground (arith, at j, listed_above (suc job.job_id) j l a.1),
            ground (arith, count),
          )
    | inr move ↦
        let gone : file d from job.job_id ≢ none = λ e. cc (f.0) in
        let d' = transition d job.job_id from pending (next job) in
        let (v', at, count) =
          sweep_refines (suc job.job_id) l d'
            (transition-IsWellFormed d job.job_id from pending (next job) v gone (same_id job)
              (is_pending job))
            a.1 (IsFiled-after d job.job_id (next job) l a.1 f.1) in
        rw (move, sweep)
          (
            v',
            λ j. ground (
              arith,
              at j,
              find-transition d job.job_id j from pending (next job) v gone,
              listed_above (suc job.job_id) j l a.1,
            ),
            ground (arith, count),
          )
  ]

  swept-list :
      (d : Disk)
      → IsWellFormed d
      → IsWellFormed (sweep from skips next (list d from) d).0
        × ((j : ℕ)
            → find (sweep from skips next (list d from) d).0 j
              ≡ swept (parsed (file d from j)) (find d j))
        × ((sweep from skips next (list d from) d).1
            ≡ length (keep_if (λ job. not (skips job)) (list d from)))
  swept-list d v =
      let (v', at, count) =
        sweep_refines 0 (list d from) d v (list-Ascends d from (v.ordered from) (v.named from))
          (list-filed d from (v.ordered from) (v.named from)) in
      (
        v',
        λ j. ground (arith, at j, find_first-list d from (v.ordered from) (v.named from) j),
        count,
      )

-- A lease that runs at a time: it has an end after that time.
abbrev pub Runs : ℕ → KnowledgeJob → Type 0
Runs now job = (t : ℕ) × (job.lease_expires_at ≡ some t) × (now < t)

-- What becomes of a processing job.
abbrev pub Recovers : ℕ → KnowledgeJob → KnowledgeJob → Type 0
Recovers now job c = (Runs now job × (c ≡ job)) ⊎ ((¬ Runs now job) × IsRecovered now job c)

leased-Runs : (now : ℕ) (job : KnowledgeJob) → is_leased now job ≡ true → Runs now job
leased-Runs now job h = elim (Option-cases job.lease_expires_at) [
  | inl none_given ↦ let h' = rw none_given at h in absurd (cc)
  | inr (t, given) ↦ let h' = rw given at h in (t, given, ground arith)
]

not_leased : (now : ℕ) (job : KnowledgeJob) → is_leased now job ≡ false → ¬ Runs now job
not_leased now job h (t, given, later) = let h' = rw given at h in absurd (ground arith)

recovered-IsRecovered : (now : ℕ) (job : KnowledgeJob) → IsRecovered now job (recovered now job)
recovered-IsRecovered now job = record {
  waits = record {
    is_pending = refl;
    attempts_lem = refl;
    due_lem = refl;
    no_lease = refl;
    updated = refl;
    same_work = IsSameWork-refl job;
  };
  crashed = refl;
  expired = refl;
  same_refresh = refl;
  same_rerun = refl;
}

recovered-Recovers :
    (now : ℕ) (job : KnowledgeJob)
    → (is_leased now job ≡ true) ⊎ (is_leased now job ≡ false)
    → Recovers now job (if is_leased now job then job else recovered now job)
recovered-Recovers now job (inl runs) =
    inl (leased-Runs now job runs, ap (λ b. if b then job else recovered now job) runs)
recovered-Recovers now job (inr over) = inr (
  not_leased now job over,
  subst (λ b. IsRecovered now job (if b then job else recovered now job)) (sym over)
      (recovered-IsRecovered now job),
)

-- On well-formed directories recoverExpired leaves in processing only jobs whose lease runs, puts
-- every other processing job back to pending, due now, without a lease, with its attempts and the
-- error of an expired lease, leaves all else as it was, and returns the number moved.
pub recover_expired_refines :
    (now : ℕ) (d : Disk)
    → IsWellFormed d
    → let r = recover_expired now d in
      IsWellFormed r.0
      × ((j : ℕ) (job : KnowledgeJob)
          → file r.0 processing j ≡ some (holds job)
          → Runs now job × (file d processing j ≡ some (holds job)))
      × ((j : ℕ) (job : KnowledgeJob)
          → file d processing j ≡ some (holds job)
          → (c : KnowledgeJob) × (find r.0 j ≡ some c) × Recovers now job c)
      × ((j : ℕ) → file d processing j ≡ none → find r.0 j ≡ find d j)
      × (r.1 ≡ length (keep_if (λ job. not (is_leased now job)) (list d processing)))
unfolding recover_expired
recover_expired_refines now d v = (v', still, moved, λ j gone. ground (arith, at j), count)
  where
    all :
        IsWellFormed (recover_expired now d).0
        × ((j : ℕ)
            → find (recover_expired now d).0 j
              ≡ swept processing
                  (is_leased now)
                  (recovered now)
                  refl
                  (λ job. refl)
                  (λ job. refl)
                  (parsed (file d processing j))
                  (find d j))
        × ((recover_expired now d).1
            ≡ length (keep_if (λ job. not (is_leased now job)) (list d processing)))
    all = swept-list processing (is_leased now) (recovered now) refl (λ job. refl) (λ job. refl) d v

    v' : IsWellFormed (recover_expired now d).0
    v' = all.0

    at :
        (j : ℕ)
        → find (recover_expired now d).0 j
          ≡ swept processing
              (is_leased now)
              (recovered now)
              refl
              (λ job. refl)
              (λ job. refl)
              (parsed (file d processing j))
              (find d j)
    at = all.1

    count :
        (recover_expired now d).1
        ≡ length (keep_if (λ job. not (is_leased now job)) (list d processing))
    count = all.2

    moves :
        (j : ℕ) (job : KnowledgeJob)
        → file d processing j ≡ some (holds job)
        → find (recover_expired now d).0 j
          ≡ some (if is_leased now job then job else recovered now job)
    moves j job e = ground (arith, at j, find_held d j job v e)

    moved :
        (j : ℕ) (job : KnowledgeJob)
        → file d processing j ≡ some (holds job)
        → (c : KnowledgeJob) × (find (recover_expired now d).0 j ≡ some c) × Recovers now job c
    moved j job e = (
      if is_leased now job then job else recovered now job,
      moves j job e,
      recovered-Recovers now job (Bool-cases (is_leased now job)),
    )

    left :
        (j : ℕ) (job : KnowledgeJob)
        → file (recover_expired now d).0 processing j ≡ some (holds job)
        → (is_leased now job ≡ true) × (file d processing j ≡ some (holds job))
    left j job e = ground (
      arith,
      at j,
      find_held (recover_expired now d).0 j job v' e,
      held_fields (recover_expired now d).0 j job v' e,
      find-named d j job v,
      v.named processing j,
    )

    still :
        (j : ℕ) (job : KnowledgeJob)
        → file (recover_expired now d).0 processing j ≡ some (holds job)
        → Runs now job × (file d processing j ≡ some (holds job))
    still j job e = let (runs, was) = left j job e in (leased-Runs now job runs, was)

-- On well-formed directories recoverRetryableFailures puts each failed job with a transient error
-- and attempts left back to pending, leaves all else as it was, and returns the number moved.
pub recover_retryable_refines :
    (now : ℕ) (d : Disk)
    → IsWellFormed d
    → let r = recover_retryable_failures now d in
      IsWellFormed r.0
      × ((j : ℕ) (job : KnowledgeJob)
          → file d failed j ≡ some (holds job)
          → find r.0 j ≡ some (if is_given_up now job then job else retried now job))
      × ((j : ℕ) → file d failed j ≡ none → find r.0 j ≡ find d j)
      × (r.1 ≡ length (keep_if (λ job. not (is_given_up now job)) (list d failed)))
unfolding recover_retryable_failures
recover_retryable_refines now d v =
    let (v', at, count) =
      swept-list failed (is_given_up now) (retried now) refl (λ job. refl) (λ job. refl) d v in
    (
      v',
      λ j job e. ground (arith, at j, find_filed d failed j job v e),
      λ j gone. ground (arith, at j),
      count,
    )
