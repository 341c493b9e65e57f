-- ===== src/Schedules/Settle.antt =====
-- The end of a scheduled run: `settleSchedule` of agent/src/web/schedules/dispatch.ts.
--
-- Times are whole milliseconds and intervals whole seconds, in which the arithmetic is exact.
pub mod Laws
use codeberg.Base.{
  ℕ, zero, suc, ◌+◌, ◌-◌, ◌*◌, ◌/◌, ◌%◌, ◌≤◌, ◌<◌, ◌≡◌, ◌⊎◌, inl, inr, max, if◌then◌else◌, Bool,
  true, false, Option, none, some, arith, refl,
}
use codeberg.Runs.Run.{Run, is_completed}
use codeberg.Schedules.Job.{ScheduledRun, scheduled, completed, failed, not_completed}

abbrev pub interval_of : ℕ → ℕ
interval_of seconds = seconds * 1000

-- `Math.floor(Math.max(0, now - due) / interval) + 1` intervals later.
abbrev pub next_due : ℕ → ℕ → ℕ → ℕ
next_due seconds now due = due + ((now - due) / interval_of seconds + 1) * interval_of seconds

abbrev pub due_again : ℕ → ℕ → Option ℕ → Option ℕ
due_again seconds now none = none
due_again seconds now (some due) = some (next_due seconds now due)

abbrev pub repeated : ℕ → ℕ → ScheduledRun → ScheduledRun
repeated seconds now job = record job {
  status = scheduled;
  occurrence = suc job.occurrence;
  due_at = due_again seconds now job.due_at;
}

abbrev pub finished : ScheduledRun → ScheduledRun
finished job = record job { status = completed }

-- `if (job.everySeconds)`: zero counts as none.
abbrev pub after_completion : Option ℕ → ℕ → ScheduledRun → ScheduledRun
after_completion none now job = finished job
after_completion (some zero) now job = finished job
after_completion (some (suc n)) now job = repeated (suc n) now job

abbrev pub with_run : Run → ScheduledRun → ScheduledRun
with_run run job = record job { last_run_id = some run.id }

unfoldable pub settle_schedule : ScheduledRun → Run → ℕ → ScheduledRun
settle_schedule job run now =
    if is_completed run.status
    then after_completion job.every_seconds now (with_run run job)
    else record (with_run run job) { status = failed; error = some not_completed }
