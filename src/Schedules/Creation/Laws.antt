-- ===== src/Schedules/Creation/Laws.antt =====
-- What creating a schedule leaves in the file.
use codeberg.Base.{
  ℕ, suc, ◌≤◌, ◌≡◌, Bool, true, false, Option, some, List, [], ◌∷◌, ◌++◌, length, keep_if, arith,
  sym, Bool-cases, Option-cases, inl, inr,
}
use codeberg.Text.{Text}
use codeberg.Schedules.Job.{ScheduledRun}
use codeberg.Schedules.Reserve.{of_chat, reserve_schedule}
use codeberg.Schedules.Reserve.Laws.{IsReserved, reserve_schedule-IsReserved}
use codeberg.Schedules.Validation.{ScheduleInput, ScheduleOwner, new_schedule}
use codeberg.Schedules.Validation.Laws.{IsNew, new_schedule-IsNew}
use codeberg.Schedules.Creation.{list, create_job, create}

one_more :
    (p : ScheduledRun → Bool) (jobs : List ScheduledRun) (job : ScheduledRun)
    → length (keep_if p (jobs ++ job ∷ [])) ≤ suc (length (keep_if p jobs))
one_more p [] job = ground arith
one_more p (x ∷ jobs) job = ground (arith, one_more p jobs job)

-- A file with one more job, at its end.
pub record IsCreated (scale : ℕ) (plus_seconds : ℕ → ℕ → Option ℕ) (parse_date : Text → Option ℕ)
    (input : ScheduleInput) (chat_id now : ℕ) (file created : List ScheduledRun) : Type 0 where
  pub job : ScheduledRun
  pub kept : List ScheduledRun
  pub at_end : created ≡ kept ++ job ∷ []
  pub new : IsNew scale plus_seconds parse_date input chat_id now job
  pub reserved : IsReserved file chat_id kept
  pub bounded : length (list chat_id created) ≤ 100

create_job-IsCreated :
    (closed found : Bool) (scale : ℕ) (plus_seconds : ℕ → ℕ → Option ℕ)
    (parse_date : Text → Option ℕ) (input : ScheduleInput) (now chat_id : ℕ) (job : ScheduledRun)
    (file created : List ScheduledRun)
    → IsNew scale plus_seconds parse_date input chat_id now job
    → create_job closed found job file ≡ some created
    → IsCreated scale plus_seconds parse_date input chat_id now file created
unfolding create_job
create_job-IsCreated true found scale plus_seconds parse_date input now chat_id job file created new
      e =
    absurd (cc)
create_job-IsCreated false found scale plus_seconds parse_date input now chat_id job file created
      new e =
    elim (Option-cases (reserve_schedule file job.chat_id)) [
      | inl full ↦ let e' = rw (full, create_job) at e in absurd (cc)
      | inr (kept, room) ↦ elim (Bool-cases found) [
        | inr missing ↦ let e' = rw (room, create_job, missing) at e in absurd (cc)
        | inl all_found ↦
            let e' = rw (room, create_job, all_found) at e in
            let same : kept ++ job ∷ [] ≡ created = cc in
            let room' : reserve_schedule file chat_id ≡ some kept = rw (← new.of_owner) room in
            let reserved = reserve_schedule-IsReserved file chat_id kept room' in
            record {
              job = job;
              kept = kept;
              at_end = sym same;
              new = new;
              reserved = reserved;
              bounded =
                  rw (← same) (omega (arith, one_more (of_chat chat_id) kept job, reserved.room));
            }
      ]
    ]

module _ (scale : ℕ) (plus_seconds : ℕ → ℕ → Option ℕ) (is_valid_session_id : ℕ → Bool)
    (is_timestamp : Text → Bool) (parse_date : Text → Option ℕ) where
  -- If creating a schedule succeeds, the file ends with its job, which belongs to the owner's
  -- chat, has the trimmed prompt, waits for its first occurrence, and has one trigger: a time
  -- after now and not after the last date, which the input's time stamp or its delay from now
  -- gives, or the end of the input's tool call without a repetition; its interval, if it has one,
  -- is of sixty seconds or more. The jobs before it were there, among them each that alone has its
  -- id and belongs to another chat or is scheduled or running, and the chat has at most a hundred
  -- jobs.
  pub create-IsCreated :
      (closed found : Bool) (owner : ScheduleOwner) (input : ScheduleInput) (id now : ℕ)
      (file created : List ScheduledRun)
      → create scale plus_seconds is_valid_session_id is_timestamp parse_date closed found owner
          input id now file
        ≡ some created
      → IsCreated scale plus_seconds parse_date input owner.chat_id now file created
  unfolding create
  create-IsCreated closed found owner input id now file created e =
      elim (Option-cases (
        new_schedule scale plus_seconds is_valid_session_id is_timestamp parse_date owner input id
          now)) [
            | inl invalid ↦ let e' = rw (invalid, create) at e in absurd (cc)
            | inr (job, made_job) ↦
                create_job-IsCreated closed found scale plus_seconds parse_date input now
                  owner.chat_id job file created
                  (new_schedule-IsNew scale plus_seconds is_valid_session_id is_timestamp parse_date
                    owner input id now job made_job)
                  (rw (made_job, create) at e)
          ]
