-- ===== src/Schedules/Settle/Laws.antt =====
-- When a schedule that repeats is due next.
use codeberg.Base.{ℕ, suc, ◌+◌, ◌-◌, ◌*◌, ◌/◌, ◌≤◌, ◌<◌, ◌≡◌, max, true, some, arith, refl}
use codeberg.Runs.Run.{Run, is_completed}
use codeberg.Schedules.Job.{ScheduledRun, scheduled}
use codeberg.Schedules.Settle.{interval_of, next_due, settle_schedule}

div_bounds : (i d : ℕ) → 0 < i → ((d / i) * i ≤ d) × (d < (d / i + 1) * i)
div_bounds i d p = (omega arith, omega arith)

-- The next time of a schedule that repeats.
pub record IsNextDue (interval now due next : ℕ) : Type 0 where
  pub later : now < next
  pub advances : due < next
  pub soon : next ≤ max now due + interval
  pub turns : ℕ
  pub whole : next ≡ due + turns * interval

next_due-IsNextDue :
    (n now due : ℕ) → IsNextDue (interval_of (suc n)) now due (next_due (suc n) now due)
next_due-IsNextDue n now due =
    let i = interval_of (suc n) in
    let p : 0 < i = omega arith in
    let bounds = div_bounds i (now - due) p in
    record {
      later = omega arith;
      advances = omega arith;
      soon = omega arith;
      turns = (now - due) / i + 1;
      whole = refl;
    }

-- A job that is scheduled again.
pub record IsRepeated (n now due : ℕ) (job job' : ScheduledRun) : Type 0 where
  pub next : ℕ
  pub due_next : job'.due_at ≡ some next
  pub timed : IsNextDue (interval_of (suc n)) now due next
  pub waits : job'.status ≡ scheduled
  pub counted : job'.occurrence ≡ suc job.occurrence
  pub same_prompt : job'.prompt ≡ job.prompt

-- A job that repeats every `suc n` seconds, whose run completed, is scheduled again under the next
-- occurrence. It is due after now and after its last time, by a whole number of intervals, and at
-- most one interval after the later of the two.
pub settle_schedule-IsRepeated :
    (n now due : ℕ) (job : ScheduledRun) (run : Run)
    → is_completed run.status ≡ true
    → job.every_seconds ≡ some (suc n)
    → job.due_at ≡ some due
    → IsRepeated n now due job (settle_schedule job run now)
unfolding settle_schedule
settle_schedule-IsRepeated n now due job run c e d =
    rw (c, settle_schedule, e, d)
      (record {
        next = next_due (suc n) now due;
        due_next = refl;
        timed = next_due-IsNextDue n now due;
        waits = refl;
        counted = refl;
        same_prompt = refl;
      })
