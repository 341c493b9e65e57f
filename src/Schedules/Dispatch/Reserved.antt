-- ===== src/Schedules/Dispatch/Reserved.antt =====
-- A job is reserved in the file before its run starts, and counts an occurrence only with its run.
use codeberg.Base.{
  ℕ, zero, suc, ◌≡◌, ◌==◌, ◌⊎◌, inl, inr, if◌then◌else◌, Bool, true, false, Option, none, some,
  List, refl, arith, Bool-cases, Option-cases, ◌∙◌, sym, ap, subst,
}
use codeberg.Text.{Text}
use codeberg.Runs.Run.{is_completed, find_session}
use codeberg.Runs.Manager.{
  Names, SearchRuns, Found, Admission, admitted, existing, refused, threw, Storage, find,
  find_latest,
}
use codeberg.Runs.Manager.Stored.{IsStored, find-active, find-none}
use codeberg.Schedules.Job.{ScheduledRun, RequestId, request_id}
use codeberg.Schedules.Settle.{after_completion, settle_schedule}
use codeberg.Schedules.Prompt.{Ready, ready, waits, throws, ready_prompt}
use codeberg.Schedules.Dispatch.{
  Advance, Halts, reserved, answered, or_thrown, admit_scheduled, reserve, is_unsettled, prompted,
  dispatch, settled_with, advance_found, advance,
}

find_latest-active : (c : ℕ) (s : SearchRuns) → (find_latest c s).0.active ≡ s.active
unfolding find_latest
find_latest-active c s = elim (Option-cases (find_session c s.sessions)) [
  | inl missing ↦ rw (missing, find_latest) refl
  | inr (session, found) ↦ elim (Option-cases session.server_run_id) [
    | inl none_yet ↦ rw (found, find_latest, none_yet) refl
    | inr (id, named) ↦ rw (found, find_latest, named) (find-active c id s)
  ]
]

ready_prompt-active :
    (snapshots : ℕ → List ℕ → Option Text) (job : ScheduledRun) (now : ℕ) (s : SearchRuns)
    → (ready_prompt snapshots job now s).0.active ≡ s.active
unfolding ready_prompt
ready_prompt-active snapshots job now s = elim (Option-cases job.after_tool_call_id) [
  | inl timed ↦ rw (timed, ready_prompt) refl
  | inr (id, waiting) ↦ rw (waiting, ready_prompt) (find-active job.chat_id job.source_run_id s)
]

-- What a step from a job without a run keeps to.
record IsReserved (others : ScheduledRun → List ScheduledRun) (job : ScheduledRun)
    (runs : SearchRuns) (a : Advance) : Type 0 where
  same_number : a.job.occurrence ≡ job.occurrence
  first : (a.runs.active ≡ runs.active) ⊎ (a.file ≡ others (reserved job))

or_thrown-file :
    (job : ScheduledRun) (runs : SearchRuns) (file : List ScheduledRun) (r : Option ScheduledRun)
    → (or_thrown job runs file r).file ≡ file
or_thrown-file job runs file none = refl
or_thrown-file job runs file (some next) = refl

answered-occurrence :
    (job : ScheduledRun) (runs : SearchRuns) (file : List ScheduledRun) (admission : Admission)
    → (or_thrown job runs file (answered job admission)).job.occurrence ≡ job.occurrence
unfolding answered
answered-occurrence job runs file (admitted f) = refl
answered-occurrence job runs file (existing f) = refl
answered-occurrence job runs file threw = refl
answered-occurrence job runs file (refused code) = elim (Bool-cases (code == 409)) [
  | inl conflict ↦ rw conflict refl
  | inr other ↦ rw other refl
]

module _ (names : Names RequestId) (message_id : RequestId → ℕ)
    (snapshots : ℕ → List ℕ → Option Text) where
  admit_scheduled-file :
      (storage : Storage) (job : ScheduledRun) (prompt : Text) (runs : SearchRuns)
      (file : List ScheduledRun)
      → ((admit_scheduled names message_id snapshots storage job prompt runs file).file ≡ file)
        × ((admit_scheduled names message_id snapshots storage job prompt runs file).job.occurrence
            ≡ job.occurrence)
  unfolding admit_scheduled
  admit_scheduled-file storage job prompt runs file =
      elim (Option-cases (find_session job.chat_id runs.sessions)) [
        | inl deleted_chat ↦ rw (deleted_chat, admit_scheduled) (refl, refl)
        | inr (session, found) ↦
            rw (found, admit_scheduled)
              (or_thrown-file job _ file _, answered-occurrence job _ file _)
      ]

  reserve-IsReserved :
      (storage : Storage) (halted : Bool) (others : ScheduledRun → List ScheduledRun)
      (job : ScheduledRun) (prompt : Text) (before runs : SearchRuns)
      → IsReserved others job before
          (reserve names message_id snapshots storage halted others job prompt runs)
  unfolding reserve
  reserve-IsReserved storage true others job prompt before runs = record {
    same_number = refl;
    first = inr refl;
  }
  reserve-IsReserved storage false others job prompt before runs =
      let (file, number) =
        admit_scheduled-file storage (reserved job) prompt runs (others (reserved job)) in
      record { same_number = number; first = inr file }

  if-IsReserved :
      (b : Bool) {others : ScheduledRun → List ScheduledRun} {job : ScheduledRun}
      {runs : SearchRuns} {x y : Advance}
      → IsReserved others job runs x
      → IsReserved others job runs y
      → IsReserved others job runs (if b then x else y)
  if-IsReserved true x y = x
  if-IsReserved false x y = y

  -- `dispatch` from the prompt on.
  prompted-IsReserved :
      (storage : Storage) (halts : Halts) (others : ScheduledRun → List ScheduledRun)
      (job : ScheduledRun) (before runs : SearchRuns) (file : List ScheduledRun) (prompt : Ready)
      → runs.active ≡ before.active
      → IsReserved others job before
          (prompted names message_id snapshots storage halts others job runs file prompt)
  unfolding prompted
  prompted-IsReserved storage halts others job before runs file waits same = record {
    same_number = refl;
    first = inl same;
  }
  prompted-IsReserved storage halts others job before runs file throws same = record {
    same_number = refl;
    first = inl same;
  }
  prompted-IsReserved storage halts others job before runs file (ready text) same =
      if-IsReserved halts.at_reservation (record { same_number = refl; first = inl same })
        (reserve-IsReserved storage halts.at_admission others job text before runs)

  dispatch-IsReserved :
      (storage : Storage) (halts : Halts) (others : ScheduledRun → List ScheduledRun)
      (job : ScheduledRun) (now : ℕ) (runs : SearchRuns) (file : List ScheduledRun)
      → IsReserved others job runs
          (dispatch names message_id snapshots storage halts others job now runs file)
  unfolding dispatch
  dispatch-IsReserved storage halts others job now runs file =
      let looked = find_latest-active job.chat_id runs in
      if-IsReserved (is_unsettled (find_latest job.chat_id runs).1)
        (record { same_number = refl; first = inl looked })
        (prompted-IsReserved storage halts others job runs _ file _
          (ready_prompt-active snapshots job now (find_latest job.chat_id runs).0 ∙ looked))

  -- The look for the run of a job's request.
  abbrev pub own_run : ScheduledRun → SearchRuns → SearchRuns × Option Found
  own_run job runs = find job.chat_id (names.hash job.chat_id (request_id job)) runs

  -- The job's run has completed.
  pub record HasCompleted (job : ScheduledRun) (runs : SearchRuns) : Type 0 where
    pub found : Found
    pub is_own : (own_run job runs).1 ≡ some found
    pub is_over : found.settled ≡ true
    pub is_good : is_completed found.run.status ≡ true

  -- What a step of the scheduler keeps to.
  pub record IsAdvance (others : ScheduledRun → List ScheduledRun) (job : ScheduledRun)
      (runs : SearchRuns) (a : Advance) : Type 0 where
    pub counted :
        (a.job.occurrence ≡ job.occurrence)
        ⊎ ((a.job.occurrence ≡ suc job.occurrence) × HasCompleted job runs)
    pub first : (a.runs.active ≡ runs.active) ⊎ (a.file ≡ others (reserved job))
    pub once :
        IsStored job.chat_id (names.hash job.chat_id (request_id job)) runs.stored
        → a.runs.active ≡ runs.active

  after_completion-occurrence :
      (every : Option ℕ) (now : ℕ) (job : ScheduledRun)
      → ((after_completion every now job).occurrence ≡ job.occurrence)
        ⊎ ((after_completion every now job).occurrence ≡ suc job.occurrence)
  after_completion-occurrence none now job = inl refl
  after_completion-occurrence (some zero) now job = inl refl
  after_completion-occurrence (some (suc n)) now job = inr refl

  settled-counted :
      (job : ScheduledRun) (now : ℕ) (runs : SearchRuns) (f : Found)
      → (own_run job runs).1 ≡ some f
      → ((settled_with job now f).occurrence ≡ job.occurrence)
        ⊎ (((settled_with job now f).occurrence ≡ suc job.occurrence) × HasCompleted job runs)
  unfolding settle_schedule
  settled-counted job now runs f own = elim (Bool-cases f.settled) [
    | inr going ↦ rw going (inl refl)
    | inl over ↦ elim (Bool-cases (is_completed f.run.status)) [
      | inr broken ↦ inl (ground arith)
      | inl good ↦
          elim (after_completion-occurrence job.every_seconds now
            (record job { last_run_id = some f.run.id })) [
              | inl same ↦ inl (ground arith)
              | inr next ↦
                  inr (
                    ground arith,
                    record { found = f; is_own = own; is_over = over; is_good = good },
                  )
            ]
    ]
  ]

  found-IsAdvance :
      (storage : Storage) (halts : Halts) (others : ScheduledRun → List ScheduledRun)
      (job : ScheduledRun) (now : ℕ) (runs : SearchRuns) (file : List ScheduledRun)
      (r : SearchRuns × Option Found)
      → own_run job runs ≡ r
      → IsAdvance others job runs
          (advance_found names message_id snapshots storage halts others job now file r)
  unfolding advance_found
  found-IsAdvance storage halts others job now runs file (looked, some f) e =
      let same : looked.active ≡ runs.active =
        subst (λ (p : SearchRuns × Option Found). p.0.active ≡ runs.active) e
          (find-active job.chat_id (names.hash job.chat_id (request_id job)) runs) in
      record {
        counted = settled-counted job now runs f (ap (λ (p : SearchRuns × Option Found). p.1) e);
        first = inl same;
        once = λ h. same;
      }
  found-IsAdvance storage halts others job now runs file (looked, none) e =
      let (unknown, same) =
        find-none job.chat_id (names.hash job.chat_id (request_id job)) runs
          (ap (λ (p : SearchRuns × Option Found). p.1) e) in
      let unchanged : looked ≡ runs = sym (ap (λ (p : SearchRuns × Option Found). p.0) e) ∙ same in
      rw unchanged (
        let d = dispatch-IsReserved storage halts others job now runs file in
        record { counted = inl d.same_number; first = d.first; once = λ h. absurd (cc) })

  -- A step of the scheduler on a job: its occurrence is counted up only if the run of the current
  -- one has completed; if a run starts, the job stands in the file as running; and if the current
  -- occurrence has a run in the journals, none starts.
  pub advance-IsAdvance :
      (storage : Storage) (halts : Halts) (others : ScheduledRun → List ScheduledRun)
      (job : ScheduledRun) (now : ℕ) (runs : SearchRuns) (file : List ScheduledRun)
      → IsAdvance others job runs
          (advance names message_id snapshots storage halts others job now runs file)
  unfolding advance
  advance-IsAdvance storage halts others job now runs file =
      found-IsAdvance storage halts others job now runs file _ refl
