-- ===== src/Schedules/Job.antt =====
-- A scheduled run: agent/src/web/schedules/types.ts.
--
-- Ids of chats, jobs and runs are compared and nothing else, so they are numbers; a request id, the
-- text of a job's id and its occurrence, is that pair. Times are in milliseconds
-- and intervals in seconds, counted in any part of one.
use codeberg.Base.{ℕ, Bool, true, false, Option, List}
use codeberg.Text.{Text}

pub data ScheduleStatus : Type 0 where
  scheduled running completed cancelled failed : ScheduleStatus

pub data ScheduleError : Type 0 where
  -- The run did not complete, the chat was deleted, or advancing threw.
  not_completed chat_deleted advance_threw : ScheduleError

pub record ScheduledRun : Type 0 where
  pub id : ℕ
  pub chat_id : ℕ
  pub source_run_id : ℕ
  pub prompt : Text
  pub due_at : Option ℕ
  pub every_seconds : Option ℕ
  pub after_tool_call_id : Option Text
  pub background_job_ids : List ℕ
  pub status : ScheduleStatus
  pub occurrence : ℕ
  pub created_at : ℕ
  pub last_run_id : Option ℕ
  pub error : Option ScheduleError

-- `['scheduled', 'running'].includes(status)`
abbrev pub is_active : ScheduleStatus → Bool
is_active scheduled = true
is_active running = true
is_active _ = false

pub record RequestId : Type 0 where
  pub job_id : ℕ
  pub number : ℕ

abbrev pub request_id : ScheduledRun → RequestId
request_id job = record { job_id = job.id; number = job.occurrence }
