-- ===== src/Schedules/Validation/Laws.antt =====
-- When a new schedule is due and how often it repeats.
use codeberg.Base.{
  ℕ, ◌*◌, ◌≤◌, ◌<◌, ◌≡◌, inl, inr, ◌&&◌, is_some, Bool, true, Option, none, some, arith, refl,
  subst, Bool-cases, Option-cases,
}
use codeberg.Text.{Text, trim}
use codeberg.Schedules.Job.{ScheduledRun, scheduled}
use codeberg.Schedules.Validation.{
  Number, finite, negative, not_finite, ScheduleInput, ScheduleOwner, last_time, is_time, in_future,
  delayed, seconds_of, is_valid_interval, repeats_in_range, is_valid_tool_call, schedule_time,
  is_valid_input, made, new_schedule,
}

-- A time that the input names: its time stamp, or its delay from now on.
pub data IsNamed (plus_seconds : ℕ → ℕ → Option ℕ) (parse_date : Text → Option ℕ)
    (input : ScheduleInput) (now due : ℕ) : Type 0 where
  at_stamp :
      (stamp : Text)
      → input.run_at ≡ some stamp
      → parse_date stamp ≡ some due
      → IsNamed plus_seconds parse_date input now due
  after_delay :
      (seconds : ℕ)
      → input.delay_seconds ≡ some (finite seconds)
      → plus_seconds now seconds ≡ some due
      → IsNamed plus_seconds parse_date input now due

-- The one event that makes a schedule due: a time to come, or the end of a tool call.
pub data IsTriggered (scale : ℕ) (plus_seconds : ℕ → ℕ → Option ℕ) (parse_date : Text → Option ℕ)
    (input : ScheduleInput) (now : ℕ) : Option ℕ → Option ℕ → Option Text → Type 0 where
  at_time :
      (due : ℕ) (every : Option ℕ)
      → now < due
      → due ≤ last_time * scale
      → IsNamed plus_seconds parse_date input now due
      → IsTriggered scale plus_seconds parse_date input now (some due) every none
  after_call :
      (id : Text)
      → input.after_tool_call_id ≡ some id
      → IsTriggered scale plus_seconds parse_date input now none none (some id)

pub record IsNew (scale : ℕ) (plus_seconds : ℕ → ℕ → Option ℕ) (parse_date : Text → Option ℕ)
    (input : ScheduleInput) (chat_id now : ℕ) (job : ScheduledRun) : Type 0 where
  pub of_owner : job.chat_id ≡ chat_id
  pub same_prompt : job.prompt ≡ trim input.prompt
  pub waits : job.status ≡ scheduled
  pub first : job.occurrence ≡ 0
  pub triggered :
      IsTriggered scale plus_seconds parse_date input now job.due_at job.every_seconds
        job.after_tool_call_id
  pub slow : (seconds : ℕ) → job.every_seconds ≡ some seconds → 60 * scale ≤ seconds

slow_lem :
    (scale : ℕ) (after_tool : Bool) (every : Option Number) (seconds : ℕ)
    → is_valid_interval scale after_tool every ≡ true
    → seconds_of every ≡ some seconds
    → 60 * scale ≤ seconds
slow_lem scale after_tool none seconds v e = absurd (cc)
slow_lem scale after_tool (some (finite n)) seconds v e =
    let same : n ≡ seconds = cc in ground arith
slow_lem scale after_tool (some negative) seconds v e = absurd (cc)
slow_lem scale after_tool (some not_finite) seconds v e = absurd (cc)

no_interval :
    (scale : ℕ) (every : Option Number)
    → is_valid_interval scale true every ≡ true
    → seconds_of every ≡ none
no_interval scale none v = refl
no_interval scale (some (finite n)) v = absurd (ground arith)
no_interval scale (some negative) v = absurd (cc)
no_interval scale (some not_finite) v = absurd (cc)

module _ (scale : ℕ) (plus_seconds : ℕ → ℕ → Option ℕ) (parse_date : Text → Option ℕ)
    (input : ScheduleInput) (now : ℕ) where
  -- Where each time that is given is one that the input names.
  in_future-IsTriggered :
      (time due every : Option ℕ)
      → ((t : ℕ) → time ≡ some t → IsNamed plus_seconds parse_date input now t)
      → in_future scale now time ≡ some due
      → IsTriggered scale plus_seconds parse_date input now due every none
  in_future-IsTriggered none due every named e = absurd (cc)
  in_future-IsTriggered (some t) due every named e = elim (Bool-cases (is_time scale now t)) [
    | inr past ↦ let e' = rw past at e in absurd (cc)
    | inl future ↦
        let e' = rw future at e in
        let same : some t ≡ due = cc in
        subst (λ x. IsTriggered scale plus_seconds parse_date input now x every none) same
          (at_time t every (ground arith) (ground arith) (named t refl))
  ]

  delayed-IsNamed :
      (t : ℕ)
      → delayed plus_seconds now input.delay_seconds ≡ some t
      → IsNamed plus_seconds parse_date input now t
  delayed-IsNamed t e = elim (Option-cases input.delay_seconds) [
    | inl missing ↦ let e' = rw missing at e in absurd (cc)
    | inr (finite seconds, given) ↦ after_delay seconds given (rw given at e)
    | inr (negative, given) ↦ let e' = rw given at e in absurd (cc)
    | inr (not_finite, given) ↦ let e' = rw given at e in absurd (cc)
  ]

module _ (scale : ℕ) (plus_seconds : ℕ → ℕ → Option ℕ) (is_timestamp : Text → Bool)
    (parse_date : Text → Option ℕ) where
  time-IsTriggered :
      (input : ScheduleInput) (now : ℕ) (due : Option ℕ)
      → is_valid_interval scale (is_some input.after_tool_call_id) input.every_seconds ≡ true
      → schedule_time scale plus_seconds is_timestamp parse_date input now ≡ some due
      → IsTriggered scale plus_seconds parse_date input now due
          (seconds_of input.every_seconds)
          input.after_tool_call_id
  unfolding schedule_time
  time-IsTriggered input now due v e = elim (Option-cases input.after_tool_call_id) [
    | inr (id, waiting) ↦
        let e' = rw (waiting, schedule_time) at e in
        let none_due : none ≡ due = cc in
        let v' = rw waiting at v in
        let never : seconds_of input.every_seconds ≡ none =
          no_interval scale input.every_seconds v' in
        simp (waiting, never, ← none_due) (after_call id waiting)
    | inl timed ↦ elim (Option-cases input.run_at) [
      | inl delayed_by ↦ simp timed (
          in_future-IsTriggered scale plus_seconds parse_date input now
            (delayed plus_seconds now input.delay_seconds) due (seconds_of input.every_seconds)
            (delayed-IsNamed scale plus_seconds parse_date input now)
            (rw (timed, schedule_time, delayed_by) at e))
      | inr (run_at, given) ↦ elim (Bool-cases (is_timestamp run_at)) [
        | inr bad ↦ let e' = rw (timed, schedule_time, given, bad) at e in absurd (cc)
        | inl good ↦ simp timed (
            in_future-IsTriggered scale plus_seconds parse_date input now (parse_date run_at) due
              (seconds_of input.every_seconds) (λ time read. at_stamp run_at given read)
              (rw (timed, schedule_time, given, good) at e))
      ]
    ]
  ]

module _ (scale : ℕ) (plus_seconds : ℕ → ℕ → Option ℕ) (is_valid_session_id : ℕ → Bool)
    (is_timestamp : Text → Bool) (parse_date : Text → Option ℕ) where
  pub new_schedule-IsNew :
      (owner : ScheduleOwner) (input : ScheduleInput) (id now : ℕ) (job : ScheduledRun)
      → new_schedule scale plus_seconds is_valid_session_id is_timestamp parse_date owner input id
          now
        ≡ some job
      → IsNew scale plus_seconds parse_date input owner.chat_id now job
  unfolding new_schedule
  new_schedule-IsNew owner input id now job e =
      elim (Bool-cases (is_valid_input scale is_valid_session_id owner input)) [
        | inr invalid ↦ let e' = rw (invalid, new_schedule) at e in absurd (cc)
        | inl valid ↦
            elim (Option-cases
              (schedule_time scale plus_seconds is_timestamp parse_date input now)) [
                | inl no_time ↦ let e' = rw (valid, new_schedule, no_time) at e in absurd (cc)
                | inr (due, timed) ↦
                    elim (Bool-cases (
                      repeats_in_range scale plus_seconds due (seconds_of input.every_seconds)
                      && is_valid_tool_call input.after_tool_call_id)) [
                        | inr out ↦
                            let e' = rw (valid, new_schedule, timed, out) at e in absurd (cc)
                        | inl fine ↦
                            let e' = rw (valid, new_schedule, timed, fine) at e in
                            let v : is_valid_interval scale (is_some input.after_tool_call_id)
                                  input.every_seconds
                                ≡ true =
                              ground arith in
                            let same : made owner input id now due ≡ job = cc in
                            subst (IsNew scale plus_seconds parse_date input owner.chat_id now) same
                              (record {
                                of_owner = refl;
                                same_prompt = refl;
                                waits = refl;
                                first = refl;
                                triggered =
                                    time-IsTriggered scale plus_seconds is_timestamp parse_date
                                      input now due v timed;
                                slow = λ seconds s.
                                    slow_lem scale (is_some input.after_tool_call_id)
                                      input.every_seconds seconds v s;
                              })
                      ]
              ]
      ]
