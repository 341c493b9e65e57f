-- ===== src/Schedules/Creation.antt =====
-- Creating, listing and cancelling schedules: `create`, `list` and `cancel` of
-- agent/src/web/schedules/scheduler.ts.
--
-- The store runs its actions one after the other, so each is a step on the file. Whether the named
-- background jobs are found is an argument; the selection of a model is left out.
pub mod Laws
use codeberg.Base.{
  ℕ, ◌==◌, ◌&&◌, not, if◌then◌else◌, Bool, true, false, Option, none, some, List, [], ◌∷◌, ◌++◌,
  keep_if,
}
use codeberg.Schedules.Job.{ScheduledRun, ScheduleStatus, scheduled, cancelled}
use codeberg.Schedules.Reserve.{of_chat, reserve_schedule}
use codeberg.Schedules.Validation.{ScheduleInput, ScheduleOwner, new_schedule}

abbrev pub list : ℕ → List ScheduledRun → List ScheduledRun
list chat_id file = keep_if (of_chat chat_id) file

abbrev pub is_job : ℕ → ℕ → ScheduledRun → Bool
is_job chat_id id job = job.id == id && job.chat_id == chat_id

-- The first job that `find` gives is cancelled; `none` where the source throws.
unfoldable pub cancel : ℕ → ℕ → List ScheduledRun → Option (List ScheduledRun)
cancel chat_id id [] = none
cancel chat_id id (job ∷ rest) =
    let later = cancel chat_id id rest in
    if is_job chat_id id job
    then some (record job { status = cancelled } ∷ rest)
    else (elim later [ none ↦ none | some jobs ↦ some (job ∷ jobs) ])

unfoldable pub create_job :
    Bool → Bool → ScheduledRun → List ScheduledRun → Option (List ScheduledRun)
create_job closed found job file =
    if closed then none else (elim (reserve_schedule file job.chat_id) [
      | none ↦ none
      | some jobs ↦ if found then some (jobs ++ job ∷ []) else none
    ])

module _ (scale : ℕ) (plus_seconds : ℕ → ℕ → Option ℕ) (is_valid_session_id : ℕ → Bool)
    (is_timestamp : List ℕ → Bool) (parse_date : List ℕ → Option ℕ) where
  -- The file after it, `none` where the source throws.
  unfoldable pub create :
      Bool
      → Bool
      → ScheduleOwner
      → ScheduleInput
      → ℕ
      → ℕ
      → List ScheduledRun
      → Option (List ScheduledRun)
  create closed found owner input id now file =
      elim (new_schedule scale plus_seconds is_valid_session_id is_timestamp parse_date owner input
        id now) [ none ↦ none | some job ↦ create_job closed found job file ]
