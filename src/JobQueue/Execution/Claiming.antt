-- ===== src/JobQueue/Execution/Claiming.antt =====
-- What `claim` takes, what it does to the job that it takes, and that two workers never hold one
-- job by the same file.
use codeberg.Base.{
  ℕ, ◌==◌, ◌≡◌, ◌≢◌, if◌then◌else◌, Bool, Option, none, some, arith, Bool-cases, Option-cases, inl,
  inr, refl, List, [], ◌∷◌, All, All-of_In, find_first,
}
use codeberg.JobQueue.Job.{JobStatus, pending, processing, JobType, KnowledgeJob}
use codeberg.JobQueue.Changes.{IsSameWork-refl, IsClaimed}
use codeberg.JobQueue.Disk.{holds, Disk, file, find, list, rename, write, write_json, unlink}
use codeberg.JobQueue.Disk.Laws.{
  file-rename, rename-none_iff, IsOrdered, write-IsOrdered, unlink-IsOrdered, In-list,
}
use codeberg.JobQueue.Invariant.{IsWellFormed}
use codeberg.JobQueue.Execution.{is_claimable, claimed, claim_from, claim}

rename-IsOrdered :
    (d d' : Disk) (from to : JobStatus) (k : ℕ)
    → rename d from to k ≡ some d'
    → IsOrdered d
    → IsOrdered d'
unfolding rename
rename-IsOrdered d d' from to k e o = elim (Option-cases (file d from k)) [
  | inl missing ↦ let bad = rw (missing, rename) at e in absurd (cc)
  | inr (f, found) ↦
      let same : write (unlink d from k) to k f ≡ d' = ground arith in
      rw (← same) (write-IsOrdered (unlink d from k) to k f (unlink-IsOrdered d from k o))
]

module _ (now lease_ms : ℕ) where
  -- One claim that succeeds: the job's file moves to `processing` with the new lease.
  claimed-IsWellFormed :
      (d d' : Disk) (job : KnowledgeJob)
      → IsWellFormed d
      → rename d pending processing job.job_id ≡ some d'
      → IsWellFormed (write_json d' processing job.job_id (claimed now lease_ms job))
  claimed-IsWellFormed d d' job v e = record {
    ordered =
        write-IsOrdered d' processing job.job_id (holds (claimed now lease_ms job))
          (rename-IsOrdered d d' pending processing job.job_id e v.ordered);
    named = λ s j.
        rw (file-rename d d' pending processing s job.job_id j (claimed now lease_ms job) e refl)
          (ground (arith, v.named s j));
    single = λ j.
        simp
          (λ (t : JobStatus).
            file-rename d d' pending processing t job.job_id j (claimed now lease_ms job) e refl)
          (ground (arith, v.single j, (rename-none_iff d pending processing job.job_id).1));
  }

  find-claimed :
      (d d' : Disk) (job : KnowledgeJob) (j : ℕ)
      → IsWellFormed d
      → rename d pending processing job.job_id ≡ some d'
      → find (write_json d' processing job.job_id (claimed now lease_ms job)) j
        ≡ (if job.job_id == j then some (claimed now lease_ms job) else find d j)
  unfolding find
  find-claimed d d' job j v e =
      simp
        (λ (t : JobStatus).
          file-rename d d' pending processing t job.job_id j (claimed now lease_ms job) e refl)
        (ground (arith, v.single job.job_id, (rename-none_iff d pending processing job.job_id).1))

module _ (now lease_ms : ℕ) (type : Option JobType) (enabled : KnowledgeJob → Bool) where
  -- The outcome of a claim, by the first listed job that may be claimed.
  abbrev Claims : Option KnowledgeJob → Disk → Disk × Option KnowledgeJob → Type 0
  Claims none d r = (r.0 ≡ d) × (r.1 ≡ none)
  Claims (some job) d r =
      (r.1 ≡ some (claimed now lease_ms job))
      × IsWellFormed r.0
      × ((j : ℕ)
          → find r.0 j ≡ (if job.job_id == j then some (claimed now lease_ms job) else find d j))

  claim_from-Claims :
      (snapshot : List KnowledgeJob) (d : Disk)
      → IsWellFormed d
      → All (λ job. file d pending job.job_id ≢ none) snapshot
      → Claims
          (find_first (is_claimable now type enabled) snapshot)
          d
          (claim_from now lease_ms type enabled snapshot d)
  unfolding claim_from
  claim_from-Claims [] d v p = (refl, refl)
  claim_from-Claims (job ∷ rest) d v (p, ps) =
      elim (Bool-cases (is_claimable now type enabled job)) [
        | inr other ↦ rw (other, claim_from) (claim_from-Claims rest d v ps)
        | inl mine ↦ elim (Option-cases (rename d pending processing job.job_id)) [
          | inl gone ↦ absurd (p ((rename-none_iff d pending processing job.job_id).0 gone))
          | inr (d', e) ↦
              rw (mine, e, claim_from)
                (
                  refl,
                  claimed-IsWellFormed now lease_ms d d' job v e,
                  λ j. find-claimed now lease_ms d d' job j v e,
                )
        ]
      ]

  listed-pending :
      (d : Disk) → IsWellFormed d → All (λ job. file d pending job.job_id ≢ none) (list d pending)
  listed-pending d v = All-of_In _ (list d pending) λ job i.
      let (k, e) = In-list d pending v.ordered i in λ none. ground (arith, v.named pending k)

  claimed-IsClaimed : (job : KnowledgeJob) → IsClaimed now lease_ms job (claimed now lease_ms job)
  claimed-IsClaimed job = record {
    is_processing = refl;
    one_more = refl;
    leased = refl;
    attempted = refl;
    updated = refl;
    same_work = IsSameWork-refl job;
    same_refresh = refl;
    same_error = refl;
    same_category = refl;
    same_rerun = refl;
  }

  -- What a claim promises of the job that it takes, and of the disk.
  abbrev pub Takes : Option KnowledgeJob → Disk → Disk × Option KnowledgeJob → Type 0
  Takes none d r = (r.0 ≡ d) × (r.1 ≡ none)
  Takes (some job) d r =
      (c : KnowledgeJob) × (r.1 ≡ some c)
      × IsClaimed now lease_ms job c
      × IsWellFormed r.0
      × ((j : ℕ) → find r.0 j ≡ (if job.job_id == j then some c else find d j))

  Claims-Takes :
      (o : Option KnowledgeJob) (d : Disk) (r : Disk × Option KnowledgeJob)
      → Claims o d r
      → Takes o d r
  Claims-Takes none d r k = k
  Claims-Takes (some job) d r (taken, v, at) =
      (claimed now lease_ms job, taken, claimed-IsClaimed job, v, at)

  -- On well-formed directories claim takes the first pending job in id order that has the wanted
  -- type, is enabled and is due, moves it to processing with one attempt more and a lease until
  -- `lease_ms` after now, its work unchanged, and changes no other job; with no such job it
  -- changes nothing.
  pub claim_refines :
      (d : Disk)
      → IsWellFormed d
      → Takes
          (find_first (is_claimable now type enabled) (list d pending))
          d
          (claim now lease_ms type enabled d)
  unfolding claim
  claim_refines d v =
      Claims-Takes (find_first (is_claimable now type enabled) (list d pending)) d _
        (claim_from-Claims (list d pending) d v (listed-pending d v))

  -- Whatever the snapshot is, a claim that succeeds leaves no pending file of the job, and one that
  -- is to succeed needs it.
  claim_from-pending :
      (snapshot : List KnowledgeJob) (d : Disk) (c : KnowledgeJob)
      → (claim_from now lease_ms type enabled snapshot d).1 ≡ some c
      → (file d pending c.job_id ≢ none)
        × (file (claim_from now lease_ms type enabled snapshot d).0 pending c.job_id ≡ none)
  unfolding claim_from
  claim_from-pending [] d c e = absurd (cc)
  claim_from-pending (job ∷ rest) d c e = elim (Bool-cases (is_claimable now type enabled job)) [
    | inr other ↦ rw (other, claim_from) (claim_from-pending rest d c (rw (other, claim_from) at e))
    | inl mine ↦ elim (Option-cases (rename d pending processing job.job_id)) [
      | inl gone ↦
          rw (mine, gone, claim_from)
            (claim_from-pending rest d c (rw (mine, gone, claim_from) at e))
      | inr (d', r) ↦
          let same : claimed now lease_ms job ≡ c = ground arith in
          rw (mine, r, claim_from, ← same)
            (
              (λ missing. ground (arith, (rename-none_iff d pending processing job.job_id).1)),
              ground (
                arith,
                file-rename d d' pending processing pending job.job_id job.job_id
                    (claimed now lease_ms job) r refl,
              ),
            )
    ]
  ]

-- Whatever snapshots two workers listed, a claim that runs on the disk another successful claim
-- left never returns the same job.
pub claim_exclusive :
    (now later lease_ms lease_ms' : ℕ) (type type' : Option JobType)
    (enabled enabled' : KnowledgeJob → Bool) (snapshot snapshot' : List KnowledgeJob) (d : Disk)
    (c c' : KnowledgeJob)
    → let first = claim_from now lease_ms type enabled snapshot d in
      first.1 ≡ some c
      → (claim_from later lease_ms' type' enabled' snapshot' first.0).1 ≡ some c'
      → c.job_id ≢ c'.job_id
claim_exclusive now later lease_ms lease_ms' type type' enabled enabled' snapshot snapshot' d c c' e
      e' same =
    (claim_from-pending later lease_ms' type' enabled' snapshot' _ c' e').0
      (rw (← same) (claim_from-pending now lease_ms type enabled snapshot d c e).1)
