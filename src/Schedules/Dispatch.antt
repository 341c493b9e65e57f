-- ===== src/Schedules/Dispatch.antt =====
-- The dispatch of due schedules: `admitScheduled` of
-- agent/src/web/schedules/dispatch.ts, and `process` and `advance` of
-- scheduler.ts.
--
-- Message ids are numbers, so that of a request is another. Each time that the scheduler looks whether it is
-- closed or may not dispatch, it reads a Boolean of its own.
pub mod Reserved
use codeberg.Base.{
  ℕ, ◌+◌, ◌-◌, ◌==◌, ◌||◌, ◌&&◌, not, leb, ltb, if◌then◌else◌, Bool, true, false, Option, none,
  some, List, [], ◌∷◌, ◌++◌, length, take, keep_if,
}
use codeberg.Text.{Text, codes}
use codeberg.Runs.Run.{
  user, Message, ToolState, tool_started, tool_completed, tool_failed, ToolEntry, submit_message,
  other_trigger, RunInput, find_session,
}
use codeberg.Schedules.Prompt.{Ready, ready, waits, throws, ready_prompt}
use codeberg.Runs.Manager.{
  Names, SearchRuns, Found, Admission, admitted, existing, refused, threw, Storage, find,
  find_latest, start,
}
use codeberg.Schedules.Job.{
  ScheduleStatus, ScheduleError, not_completed, scheduled, running, completed, cancelled, failed,
  ScheduledRun, chat_deleted, advance_threw, is_active, RequestId, request_id,
}
use codeberg.Schedules.Settle.{settle_schedule}

-- `status === 'scheduled' && dueAt !== undefined && dueAt > now`
abbrev pub is_early : ℕ → ScheduleStatus → Option ℕ → Bool
is_early now scheduled (some due) = ltb now due
is_early now _ _ = false

-- What a step leaves of the job in memory, of the runs and of the file of schedules, and whether it
-- threw.
pub record Advance : Type 0 where
  pub job : ScheduledRun
  pub runs : SearchRuns
  pub file : List ScheduledRun
  pub thrown : Bool

-- `closed || !canDispatch()`, before the job, before the reservation and before the admission.
pub record Halts : Type 0 where
  pub at_job : Bool
  pub at_reservation : Bool
  pub at_admission : Bool

abbrev pub same_status : ScheduleStatus → ScheduleStatus → Bool
same_status scheduled scheduled = true
same_status running running = true
same_status completed completed = true
same_status cancelled cancelled = true
same_status failed failed = true
same_status _ _ = false

abbrev pub same_number : Option ℕ → Option ℕ → Bool
same_number none none = true
same_number (some a) (some b) = a == b
same_number _ _ = false

abbrev pub same_error : Option ScheduleError → Option ScheduleError → Bool
same_error none none = true
same_error (some not_completed) (some not_completed) = true
same_error (some chat_deleted) (some chat_deleted) = true
same_error (some advance_threw) (some advance_threw) = true
same_error _ _ = false

-- `JSON.stringify(job) === before`, in the fields that a step may change.
unfoldable pub is_same_job : ScheduledRun → ScheduledRun → Bool
is_same_job a b =
    same_status a.status b.status
    && a.occurrence == b.occurrence
    && same_number a.due_at b.due_at
    && same_number a.last_run_id b.last_run_id
    && same_error a.error b.error

-- The list of the jobs with this one in its place.
abbrev pub place : List ScheduledRun → List ScheduledRun → ScheduledRun → List ScheduledRun
place before after job = before ++ job ∷ after

abbrev pub reserved : ScheduledRun → ScheduledRun
reserved job = record job { status = running }

abbrev pub deleted : ScheduledRun → ScheduledRun
deleted job = record job { status = cancelled; error = some chat_deleted }

-- What the admission of a job makes of it, `none` where it throws.
unfoldable pub answered : ScheduledRun → Admission → Option ScheduledRun
answered job (admitted found) = some (record job { last_run_id = some found.run.id })
answered job (existing found) = some (record job { last_run_id = some found.run.id })
answered job (refused code) = if code == 409 then some (record job { status = scheduled }) else none
answered job threw = none

abbrev pub or_thrown : ScheduledRun → SearchRuns → List ScheduledRun → Option ScheduledRun → Advance
or_thrown job runs file none = record { job = job; runs = runs; file = file; thrown = true }
or_thrown job runs file (some next) = record {
  job = next;
  runs = runs;
  file = file;
  thrown = false;
}

abbrev pub unchanged : ScheduledRun → SearchRuns → List ScheduledRun → Advance
unchanged job runs file = record { job = job; runs = runs; file = file; thrown = false }

abbrev pub is_unsettled : Option Found → Bool
is_unsettled none = false
is_unsettled (some found) = not found.settled

abbrev pub settled_with : ScheduledRun → ℕ → Found → ScheduledRun
settled_with job now found = if found.settled then settle_schedule job found.run now else job

-- The `catch` of `process`.
abbrev pub caught : Advance → ScheduledRun
caught a = if a.thrown then record a.job { status = failed; error = some advance_threw } else a.job

module _ (names : Names RequestId) (message_id : RequestId → ℕ)
    (snapshots : ℕ → List ℕ → Option Text) where
  abbrev pub follow_up : ScheduledRun → Text → Message
  follow_up job prompt = record { id = message_id (request_id job); role = user; body = prompt }

  abbrev pub scheduled_input : ScheduledRun → Text → List Message → RunInput RequestId
  scheduled_input job prompt messages = record {
    chat_id = job.chat_id;
    request = request_id job;
    messages = messages ++ follow_up job prompt ∷ [];
    trigger = other_trigger;
  }

  -- `admitScheduled`
  unfoldable pub admit_scheduled :
      Storage → ScheduledRun → Text → SearchRuns → List ScheduledRun → Advance
  admit_scheduled storage job prompt runs file = elim (find_session job.chat_id runs.sessions) [
    | none ↦ record { job = deleted job; runs = runs; file = file; thrown = false }
    | some session ↦
        let (next, admission) =
          start names storage (scheduled_input job prompt session.messages) runs in
        or_thrown job next file (answered job admission)
  ]

  -- `advance` from the reservation on; `others` puts a job in its place in the list.
  unfoldable pub reserve :
      Storage
      → Bool
      → (ScheduledRun → List ScheduledRun)
      → ScheduledRun
      → Text
      → SearchRuns
      → Advance
  reserve storage halted others job prompt runs =
      if halted
      then record { job = reserved job; runs = runs; file = others (reserved job); thrown = false }
      else admit_scheduled storage (reserved job) prompt runs (others (reserved job))

  -- `advance` once it is known whether there is a prompt.
  unfoldable pub prompted :
      Storage
      → Halts
      → (ScheduledRun → List ScheduledRun)
      → ScheduledRun
      → SearchRuns
      → List ScheduledRun
      → Ready
      → Advance
  prompted storage halts others job runs file waits = unchanged job runs file
  prompted storage halts others job runs file throws = record {
    job = job;
    runs = runs;
    file = file;
    thrown = true;
  }
  prompted storage halts others job runs file (ready text) =
      if halts.at_reservation
      then unchanged job runs file
      else reserve storage halts.at_admission others job text runs

  unfoldable pub dispatch :
      Storage
      → Halts
      → (ScheduledRun → List ScheduledRun)
      → ScheduledRun
      → ℕ
      → SearchRuns
      → List ScheduledRun
      → Advance
  dispatch storage halts others job now runs file =
      let (looked, active) = find_latest job.chat_id runs in
      let (ready_runs, prompt) = ready_prompt snapshots job now looked in
      if is_unsettled active
      then unchanged job looked file
      else prompted storage halts others job ready_runs file prompt

  unfoldable pub advance_found :
      Storage
      → Halts
      → (ScheduledRun → List ScheduledRun)
      → ScheduledRun
      → ℕ
      → List ScheduledRun
      → SearchRuns × Option Found
      → Advance
  advance_found storage halts others job now file (runs, some found) =
      unchanged (settled_with job now found) runs file
  advance_found storage halts others job now file (runs, none) =
      dispatch storage halts others job now runs file

  unfoldable pub advance :
      Storage
      → Halts
      → (ScheduledRun → List ScheduledRun)
      → ScheduledRun
      → ℕ
      → SearchRuns
      → List ScheduledRun
      → Advance
  advance storage halts others job now runs file =
      advance_found storage halts others job now file
        (find job.chat_id (names.hash job.chat_id (request_id job)) runs)

  -- One turn of the loop of `process`: the job, the runs and the file after it. A job that is as
  -- before is not written.
  unfoldable pub process_job :
      Storage
      → Halts
      → ℕ
      → (ScheduledRun → List ScheduledRun)
      → ScheduledRun
      → SearchRuns
      → List ScheduledRun
      → ScheduledRun × SearchRuns × List ScheduledRun
  process_job storage halts now others job runs file =
      if not (is_active job.status) || is_early now job.status job.due_at
      then (job, runs, file)
      else (let a = advance storage halts others job now runs file in
          let next = caught a in
          (next, a.runs, if is_same_job job next then a.file else others next))

  -- `process` from the jobs before, over those that are left; `break` where it halts.
  unfoldable pub process :
      (ScheduledRun → Storage)
      → (ScheduledRun → Halts)
      → ℕ
      → List ScheduledRun
      → List ScheduledRun
      → SearchRuns
      → List ScheduledRun
      → SearchRuns × List ScheduledRun
  process storage halts now before [] runs file = (runs, file)
  process storage halts now before (job ∷ after) runs file = elim (halts job).at_job [
    | true ↦ (runs, file)
    | false ↦
        let (next, runs', file') =
          process_job (storage job) (halts job) now (place before after) job runs file in
        process storage halts now (before ++ next ∷ []) after runs' file'
  ]
