-- ===== src/Schedules/Tests.antt =====
-- Schedules of a chat: the theorems at inputs that meet their hypotheses, and runs of the code.
use codeberg.Base.{
  ◌++◌, ℕ, zero, suc, ◌+◌, ◌*◌, ◌≡◌, true, false, Option, none, some, List, [], ◌∷◌, length, refl,
  keep_if,
}
use codeberg.Text.{Text, codes, trim, trim_end, trim_start, is_space}
use codeberg.Runs.Run.{
  Message, user, RunInput, Run, Session, find_active, find_run, find_session, save_run, upsert,
  other_trigger,
}
use codeberg.Runs.History.{validate_history}
use codeberg.Runs.Manager.{
  Names, SearchRuns, writes, find, load, find_latest, start, start_new, start_valid, is_requested,
}
use codeberg.Schedules.Job.{cancelled, ScheduledRun, scheduled, running, completed, RequestId}
use codeberg.Schedules.Validation.{
  ScheduleInput, ScheduleOwner, finite, new_schedule, schedule_time,
}
use codeberg.Schedules.Creation.{create, create_job, cancel}
use codeberg.Schedules.Creation.Laws.{IsCreated, create-IsCreated}
use codeberg.Schedules.Reserve.{reserve_schedule, stays, sort_by_age, insert_by_age, id_set, has_id}
use codeberg.Schedules.Settle.{settle_schedule}
use codeberg.Schedules.Settle.Laws.{IsRepeated, settle_schedule-IsRepeated}
use codeberg.Schedules.Prompt.{ready_prompt, wake_prompt}
use codeberg.Schedules.Dispatch.{
  Halts, place, advance, advance_found, dispatch, prompted, reserve, admit_scheduled, process,
  process_job, is_same_job, answered,
}
use codeberg.Schedules.Dispatch.Reserved.{IsAdvance, advance-IsAdvance}

-- Every minute, from 1000 on.
abbrev job : ScheduledRun
job = record {
  id = 4;
  chat_id = 5;
  source_run_id = 2;
  prompt = codes "go on";
  due_at = some 1000;
  every_seconds = some 60;
  after_tool_call_id = none;
  background_job_ids = [];
  status = scheduled;
  occurrence = 0;
  created_at = 0;
  last_run_id = none;
  error = none;
}

unfoldable old_jobs : ℕ → List ScheduledRun
old_jobs zero = []
old_jobs (suc n) = record job { id = n; status = completed; created_at = n } ∷ old_jobs n

abbrev done_run : Run
done_run = record {
  chat_id = 5;
  id = 40;
  fingerprint = 1;
  status = codeberg.Runs.Run.RunStatus.completed;
  messages = [];
  answer = none;
  tools = [];
}

-- Two minutes and a half too late, the job is due at the end of the third.
settle_schedule-IsRepeated_example :
    IsRepeated 59 151000 1000 job (settle_schedule job done_run 151000)
settle_schedule-IsRepeated_example =
    settle_schedule-IsRepeated 59 151000 1000 job done_run refl refl refl

settle_test : (settle_schedule job done_run 151000).due_at ≡ some 181000
unfolding settle_schedule
settle_test = refl

abbrev names : Names RequestId
names = record {
  hash = λ chat (request : RequestId). 1000 * chat + 10 * request.job_id + request.number;
  fingerprint = λ messages trigger. length messages;
  is_valid_chat = λ chat. true;
  is_valid_request = λ request. true;
}

abbrev message_id : RequestId → ℕ
message_id request = 10 * request.job_id + request.number

abbrev no_snapshots : ℕ → List ℕ → Option Text
no_snapshots chat_id ids = none

abbrev runs : SearchRuns
runs = record {
  active = [];
  stored = [];
  sessions = record { chat_id = 5; server_run_id = none; messages = [] } ∷ [];
  requested = [];
  closed = false;
}

abbrev runs_on : Halts
runs_on = record { at_job = false; at_reservation = false; at_admission = false }

advance-IsAdvance_example :
    IsAdvance names message_id no_snapshots
      (place [] [])
      job
      runs
      (advance names message_id no_snapshots writes runs_on (place [] []) job 2000 runs (job ∷ []))
advance-IsAdvance_example =
    advance-IsAdvance names message_id no_snapshots writes runs_on (place [] []) job 2000 runs
      (job ∷ [])

-- An admission that is refused with 409 leaves the job as running in the file, since in memory it is
-- scheduled as before and so is not written again.
conflict_test :
    (process names message_id no_snapshots
      (λ j. writes)
      (λ j. runs_on)
      2000
      []
      (job ∷ [])
      (record runs { requested = 5040 ∷ [] })
      (job ∷ [])).1
    ≡ record job { status = running } ∷ []
unfolding process process_job advance advance_found dispatch prompted reserve admit_scheduled
    ready_prompt wake_prompt is_same_job answered find load find_latest start start_valid start_new
    is_requested validate_history find_active find_run find_session
conflict_test = refl

abbrev owner : ScheduleOwner
owner = record { chat_id = 5; source_run_id = 2 }

-- Milliseconds and seconds in thousandths, and sums that are exact.
abbrev scale : ℕ
scale = 1000

abbrev plus_seconds : ℕ → ℕ → Option ℕ
plus_seconds time seconds = some (time + seconds * 1000)

-- After one thousandth of a second, and every minute and a half second.
abbrev each_minute : ScheduleInput
each_minute = record {
  prompt = codes " go on ";
  run_at = none;
  delay_seconds = some (finite 1);
  every_seconds = some (finite 60500);
  after_tool_call_id = none;
  background_job_ids = none;
}

-- Of a hundred completed jobs the oldest makes room.
abbrev created_job : ScheduledRun
created_job = record job { due_at = some 1001000; every_seconds = some 60500; created_at = 1000000 }

create-IsCreated_example :
    IsCreated scale plus_seconds
      (λ text. none)
      each_minute
      5
      1000000
      (old_jobs 100)
      (keep_if (stays (0 ∷ [])) (old_jobs 100) ++ created_job ∷ [])
unfolding old_jobs reserve_schedule sort_by_age insert_by_age id_set has_id create create_job
    new_schedule schedule_time trim trim_end trim_start is_space
create-IsCreated_example =
    create-IsCreated scale plus_seconds (λ id. true) (λ text. false) (λ text. none) false true owner
      each_minute 4 1000000 (old_jobs 100)
      (keep_if (stays (0 ∷ [])) (old_jobs 100) ++ created_job ∷ []) refl

-- A job that is cancelled is passed over.
cancel_test : cancel 5 4 (job ∷ []) ≡ some (record job { status = cancelled } ∷ [])
unfolding cancel
cancel_test = refl
