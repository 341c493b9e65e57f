-- ===== src/Schedules/Validation.antt =====
-- What a schedule may be: agent/src/web/schedules/validation.ts.
--
-- The input's fields have the types that its interface gives them. A number from zero on is its count
-- of parts of one, of which `scale` make one; in 2 ^ 1074 parts each number that is finite counts
-- whole ones. The other numbers are negative or not finite. What the floating point gives for a time
-- and a number of seconds, `time + seconds * 1000`, is the argument `plus_seconds`, with `none` where
-- it is not finite. Valid ids, the pattern of time stamps and `Date.parse` are arguments; times are
-- in milliseconds, in the same parts.
pub mod Laws
use codeberg.Base.{
  ℕ, ◌+◌, ◌*◌, leb, ltb, not, ◌&&◌, ◌||◌, is_some, if◌then◌else◌, Bool, true, false, Option, none,
  some, List, [], ◌∷◌, length,
}
use codeberg.Text.{Text, trim, is_empty}
use codeberg.Schedules.Job.{ScheduledRun, scheduled}

pub data Number : Type 0 where
  finite : ℕ → Number
  negative not_finite : Number

pub record ScheduleInput : Type 0 where
  pub prompt : Text
  pub run_at : Option Text
  pub delay_seconds : Option Number
  pub every_seconds : Option Number
  pub after_tool_call_id : Option Text
  pub background_job_ids : Option (List ℕ)

pub record ScheduleOwner : Type 0 where
  pub chat_id : ℕ
  pub source_run_id : ℕ

-- `8.64e15`
abbrev pub last_time : ℕ
last_time = 8640000000000000

abbrev pub is_valid_prompt : Text → Bool
is_valid_prompt prompt = not (is_empty (trim prompt)) && leb (length prompt) 16000

abbrev pub digit : Bool → ℕ
digit true = 1
digit false = 0

abbrev pub triggers : ScheduleInput → ℕ
triggers input =
    digit (is_some input.run_at)
    + digit (is_some input.delay_seconds)
    + digit (is_some input.after_tool_call_id)

abbrev pub is_valid_interval : ℕ → Bool → Option Number → Bool
is_valid_interval scale after_tool none = true
is_valid_interval scale after_tool (some (finite seconds)) =
    leb (60 * scale) seconds && not after_tool
is_valid_interval scale after_tool (some negative) = false
is_valid_interval scale after_tool (some not_finite) = false

abbrev pub ids_of : Option (List ℕ) → List ℕ
ids_of none = []
ids_of (some ids) = ids

-- `none` where the value is not finite, or a negative delay puts it before now.
abbrev pub delayed : (ℕ → ℕ → Option ℕ) → ℕ → Option Number → Option ℕ
delayed plus_seconds now (some (finite seconds)) = plus_seconds now seconds
delayed plus_seconds now (some negative) = none
delayed plus_seconds now (some not_finite) = none
delayed plus_seconds now none = none

abbrev pub seconds_of : Option Number → Option ℕ
seconds_of (some (finite seconds)) = some seconds
seconds_of _ = none

abbrev pub is_time : ℕ → ℕ → ℕ → Bool
is_time scale now due = ltb now due && leb due (last_time * scale)

abbrev pub in_future : ℕ → ℕ → Option ℕ → Option (Option ℕ)
in_future scale now none = none
in_future scale now (some due) = if is_time scale now due then some (some due) else none

abbrev pub is_in_range : ℕ → Option ℕ → Bool
is_in_range scale none = false
is_in_range scale (some due) = leb due (last_time * scale)

abbrev pub repeats_in_range : ℕ → (ℕ → ℕ → Option ℕ) → Option ℕ → Option ℕ → Bool
repeats_in_range scale plus_seconds (some due) (some seconds) =
    is_in_range scale (plus_seconds due seconds)
repeats_in_range scale plus_seconds _ _ = true

abbrev pub is_valid_tool_call : Option Text → Bool
is_valid_tool_call none = true
is_valid_tool_call (some id) = not (is_empty (trim id)) && leb (length id) 256

abbrev pub made : ScheduleOwner → ScheduleInput → ℕ → ℕ → Option ℕ → ScheduledRun
made owner input id now due = record {
  id = id;
  chat_id = owner.chat_id;
  source_run_id = owner.source_run_id;
  prompt = trim input.prompt;
  due_at = due;
  every_seconds = seconds_of input.every_seconds;
  after_tool_call_id = input.after_tool_call_id;
  background_job_ids = ids_of input.background_job_ids;
  status = scheduled;
  occurrence = 0;
  created_at = now;
  last_run_id = none;
  error = none;
}

abbrev pub is_valid_input : ℕ → (ℕ → Bool) → ScheduleOwner → ScheduleInput → Bool
is_valid_input scale is_valid_session_id owner input =
    is_valid_session_id owner.chat_id
    && is_valid_session_id owner.source_run_id
    && is_valid_prompt input.prompt
    && (leb (triggers input) 1 && leb 1 (triggers input))
    && is_valid_interval scale (is_some input.after_tool_call_id) input.every_seconds
    && leb (length (ids_of input.background_job_ids)) 8

module _ (scale : ℕ) (plus_seconds : ℕ → ℕ → Option ℕ) (is_timestamp : Text → Bool)
    (parse_date : Text → Option ℕ) where
  -- `none` where the source throws, `some none` where it returns no time.
  unfoldable pub schedule_time : ScheduleInput → ℕ → Option (Option ℕ)
  schedule_time input now = elim input.after_tool_call_id [
    | some id ↦ some none
    | none ↦ (elim input.run_at [
      | some run_at ↦ if is_timestamp run_at then in_future scale now (parse_date run_at) else none
      | none ↦ in_future scale now (delayed plus_seconds now input.delay_seconds)
    ])
  ]

module _ (scale : ℕ) (plus_seconds : ℕ → ℕ → Option ℕ) (is_valid_session_id : ℕ → Bool)
    (is_timestamp : Text → Bool) (parse_date : Text → Option ℕ) where
  -- `none` where the source throws; `id` is the random one.
  unfoldable pub new_schedule : ScheduleOwner → ScheduleInput → ℕ → ℕ → Option ScheduledRun
  new_schedule owner input id now =
      if not (is_valid_input scale is_valid_session_id owner input)
      then none
      else (elim (schedule_time scale plus_seconds is_timestamp parse_date input now) [
        | none ↦ none
        | some due ↦
            if repeats_in_range scale plus_seconds due (seconds_of input.every_seconds)
              && is_valid_tool_call input.after_tool_call_id
            then some (made owner input id now due)
            else none
      ])
