-- ===== src/JobQueue/Tests.antt =====
-- A small queue on disk: the theorems of the job queue at inputs that meet their hypotheses, and
-- runs of its operations.
use Prim.Native.String.{String}
use codeberg.Base.{
  ℕ, ◌+◌, ◌≤◌, ◌==◌, ◌≡◌, ◌≢◌, if◌then◌else◌, leb, true, false, none, some, arith, refl, [], ◌∷◌,
  inl, find_first, not, length, keep_if,
}
use codeberg.JobQueue.Job.{
  JobStatus, pending, processing, completed, failed, JobType, extract_knowledge, network_error,
  KnowledgeJob,
}
use codeberg.JobQueue.Disk.{
  holds, Disk, file, write, unlink, rename, list, find, transition, lookup, jobs, put, remove,
  write_json,
}
use codeberg.JobQueue.Invariant.{IsWellFormed, IsReadable, copies}
use codeberg.JobQueue.Execution.{
  claim_from, claim, release, complete, fail_as, claimed, is_claimable, delay,
}
use codeberg.JobQueue.Execution.GiveBack.{
  complete_refines, fail_refines, release_refines, completion, failing,
}
use codeberg.JobQueue.Execution.Claiming.{claim_refines, claim_exclusive, Takes}
use codeberg.JobQueue.Execution.Retry.{fail_retries}
use codeberg.JobQueue.Enqueue.{EnqueueOptions, enqueue}
use codeberg.JobQueue.Enqueue.Laws.{enqueue_refines, enqueued}
use codeberg.JobQueue.Enqueue.Requests.{rerun_kept}
use codeberg.JobQueue.Recovery.{
  recover_expired, recover_retryable_failures, reconcile_states, sweep, beats, is_leased,
}
use codeberg.JobQueue.Recovery.Sweep.{Runs, Recovers, recover_expired_refines}
use codeberg.JobQueue.Changes.{IsGivenBack, IsAskedAgain, Completes, Fails, Enqueues}
use codeberg.JobQueue.Recovery.Reconcile.{reconcile_states_survivor}
use codeberg.JobQueue.Recovery.Crash.{crash_recovered}
use codeberg.JobQueue.Scheduling.{next_due_at}
use codeberg.JobQueue.Scheduling.Due.{next_due_at-Tells, Tells}

abbrev job_at : ℕ → JobStatus → KnowledgeJob
job_at id status = record {
  job_id = id;
  type = extract_knowledge;
  interaction_id = "turn-1";
  source_revision = none;
  extraction_version = none;
  source_code_revision = none;
  source_refresh = false;
  created_at = 10;
  updated_at = 20;
  attempt_count = 2;
  status = status;
  last_error = none;
  last_error_category = none;
  last_attempt_at = none;
  next_attempt_at = none;
  lease_expires_at = none;
  rerun_requested = false;
}

abbrev waiting : KnowledgeJob
waiting = record (job_at 3 pending) { next_attempt_at = some 900 }

abbrev ready : KnowledgeJob
ready = job_at 4 pending

abbrev held : KnowledgeJob
held = record (job_at 5 processing) { lease_expires_at = some 600 }

abbrev broken : KnowledgeJob
broken = record (job_at 7 failed) { last_error_category = some network_error }

abbrev sample : Disk
sample = record {
  pending_dir = (3, holds waiting) ∷ (4, holds ready) ∷ [];
  processing_dir = (5, holds held) ∷ [];
  completed_dir = [];
  failed_dir = (7, holds broken) ∷ [];
}

-- The ids of a program whose only interaction is the one of job 5.
abbrev id_of : JobType → String → ℕ
id_of type interaction = 5

abbrev again : EnqueueOptions
again = record { requeue_completed = true; source_refresh = false }

queue : Unit {0}
unfolding claim claim_from release complete fail_as enqueue recover_expired
    recover_retryable_failures reconcile_states sweep beats next_due_at find transition rename
    unlink write list file
queue = tt

sample-IsWellFormed : IsWellFormed sample
unfolding file lookup
sample-IsWellFormed = record {
  ordered = λ s. ground arith;
  named = λ s k. ground arith;
  single = λ k. ground arith;
}

sample-held : file sample processing 5 ≡ some (holds held)
unfolding queue lookup
sample-held = refl

sample-IsReadable : (k : ℕ) → IsReadable sample k
unfolding queue lookup
sample-IsReadable k s e = ground arith

claim_refines_example :
    Takes 800 100 none
      (λ _. true)
      (find_first (is_claimable 800 none (λ _. true)) (list sample pending))
      sample
      (claim 800 100 none (λ _. true) sample)
claim_refines_example = claim_refines 800 100 none (λ _. true) sample sample-IsWellFormed

-- Job 3 is not due yet, so the first claim takes job 4, and a second worker gets nothing.
claim_tests :
    ((claim 800 100 none (λ _. true) sample).1 ≡ some (claimed 800 100 ready))
    × ((claim 810 100 none (λ _. true) (claim 800 100 none (λ _. true) sample).0).1 ≡ none)
unfolding queue lookup jobs put remove
claim_tests = (refl, refl)

first_claim :
    (claim_from 800 100 none (λ _. true) (waiting ∷ ready ∷ []) sample).1
    ≡ some (claimed 800 100 ready)
unfolding queue lookup
first_claim = refl

-- Another worker with the same snapshot, later.
second_claim :
    (claim_from 950 100 none
      (λ _. true)
      (waiting ∷ ready ∷ [])
      (claim_from 800 100 none (λ _. true) (waiting ∷ ready ∷ []) sample).0).1
    ≡ some (claimed 950 100 waiting)
unfolding queue lookup put remove
second_claim = refl

claim_exclusive_example : ◌≢◌ {A = ℕ} 4 3
claim_exclusive_example =
    claim_exclusive 800 950 100 100 none none (λ _. true) (λ _. true) (waiting ∷ ready ∷ [])
      (waiting ∷ ready ∷ []) sample (claimed 800 100 ready) (claimed 950 100 waiting) first_claim
      second_claim

complete_refines_example :
    IsWellFormed (complete 700 held sample)
    × ((j : ℕ)
        → find (complete 700 held sample) j
          ≡ (if 5 == j then some (completion 700 held held) else find sample j))
    × Completes 700 held held (completion 700 held held)
complete_refines_example = complete_refines 700 sample held held sample-IsWellFormed sample-held

fail_refines_example :
    IsWellFormed (fail_as 700 held network_error "offline" true sample)
    × ((j : ℕ)
        → find (fail_as 700 held network_error "offline" true sample) j ≡ (
            if 5 == j
            then some (failing 700 held held network_error "offline" true)
            else find sample j))
    × Fails 700
        (700 + delay 700 held.attempt_count)
        network_error
        "offline"
        true
        held
        held
        (failing 700 held held network_error "offline" true)
fail_refines_example =
    fail_refines 700 sample held held sample-IsWellFormed sample-held network_error "offline" true

release_refines_example :
    IsWellFormed (release 700 held sample)
    × ((c : KnowledgeJob) × IsGivenBack 700 1 held c
        × ((j : ℕ) → find (release 700 held sample) j ≡ (if 5 == j then some c else find sample j)))
release_refines_example = release_refines 700 sample held held sample-IsWellFormed sample-held

fail_retries_example :
    (next : KnowledgeJob) × (due : ℕ) × (find
        (fail_as 700 held network_error "offline" true sample)
        5
      ≡ some next)
    × (next.status ≡ pending)
    × (next.attempt_count ≡ 2)
    × (700 + 60000 ≤ due)
    × (due ≤ 700 + 3600000)
    × ((later : ℕ) → is_claimable later none (λ _. true) next ≡ leb due later)
fail_retries_example =
    fail_retries 700 sample held held network_error "offline" sample-IsWellFormed sample-held refl
      (omega arith)

enqueue_refines_example :
    (IsWellFormed (enqueue id_of 700 extract_knowledge "turn-1" again sample).0
      × ((j : ℕ)
          → find (enqueue id_of 700 extract_knowledge "turn-1" again sample).0 j ≡ (
              if 5 == j
              then some (enqueued id_of 700 extract_knowledge "turn-1" again (find sample 5))
              else find sample j)))
    × Enqueues 700 5 extract_knowledge "turn-1" again.source_refresh again.requeue_completed
        (find sample 5)
        (enqueued id_of 700 extract_knowledge "turn-1" again (find sample 5))
enqueue_refines_example =
    enqueue_refines id_of 700 extract_knowledge "turn-1" again sample sample-IsWellFormed
      (sample-IsReadable 5)

abbrev asked : KnowledgeJob
asked = record held { rerun_requested = true }

rerun_kept_example :
    (c : KnowledgeJob) × (find
        (complete 800 held (enqueue id_of 700 extract_knowledge "turn-1" again sample).0)
        5
      ≡ some c)
    × (find
          (fail_as 800 held network_error "gone" false
            (enqueue id_of 700 extract_knowledge "turn-1" again sample).0)
          5
        ≡ some c)
    × IsAskedAgain 800 false held c
rerun_kept_example =
    rerun_kept id_of 700 extract_knowledge "turn-1" again sample held held 800 network_error "gone"
      false sample-IsWellFormed sample-held refl refl

recover_expired_refines_example :
    let r = recover_expired 700 sample in
    IsWellFormed r.0
    × ((j : ℕ) (job : KnowledgeJob)
        → file r.0 processing j ≡ some (holds job)
        → Runs 700 job × (file sample processing j ≡ some (holds job)))
    × ((j : ℕ) (job : KnowledgeJob)
        → file sample processing j ≡ some (holds job)
        → (c : KnowledgeJob) × (find r.0 j ≡ some c) × Recovers 700 job c)
    × ((j : ℕ) → file sample processing j ≡ none → find r.0 j ≡ find sample j)
    × (r.1 ≡ length (keep_if (λ job. not (is_leased 700 job)) (list sample processing)))
recover_expired_refines_example = recover_expired_refines 700 sample sample-IsWellFormed

recovery_counts :
    ((recover_expired 700 sample).1 ≡ 1)
    × ((recover_expired 500 sample).1 ≡ 0)
    × ((recover_retryable_failures 700 sample).1 ≡ 1)
unfolding queue lookup jobs put remove
recovery_counts = (refl, refl, refl)

reconcile_states_survivor_example :
    (copies (reconcile_states sample) 5 ≤ 1)
    × ((s : JobStatus) (job : KnowledgeJob)
        → file sample s 5 ≡ some (holds job)
        → (w : KnowledgeJob) × (find (reconcile_states sample) 5 ≡ some w)
          × (beats job w ≡ false)
          × (file sample w.status 5 ≡ some (holds w)))
    × (copies sample 5 ≡ 0 → copies (reconcile_states sample) 5 ≡ 0)
reconcile_states_survivor_example =
    reconcile_states_survivor sample sample-IsWellFormed.ordered sample-IsWellFormed.named 5
      (sample-IsReadable 5)

abbrev done : KnowledgeJob
done = record held { status = completed; updated_at = 700 }

crash_recovered_example :
    (find (reconcile_states (write_json sample completed 5 done)) 5
      ≡ find (transition sample 5 processing completed done) 5)
    × (copies (reconcile_states (write_json sample completed 5 done)) 5 ≤ 1)
crash_recovered_example =
    crash_recovered sample 5 processing completed held done sample-IsWellFormed sample-held refl
      refl refl (inl (omega arith)) 5 (sample-IsReadable 5)

next_due_at-Tells_example :
    Tells 500 none (λ _. true) sample (next_due_at 500 none (λ _. true) sample)
next_due_at-Tells_example = next_due_at-Tells 500 none (λ _. true) sample
