-- ===== src/TurnQueue/State.antt =====
-- The state of a TurnQueue, with the calls that it waits for.
--
-- A `run` is a call of the private method `run` that has not returned: each waits for the chat. The
-- promise `stopping` is its stage and those who wait for it. `remote` and `synchronizes` say which
-- of the optional methods the constructor was given; `status` is that of the chat, which changes
-- by itself. `next` stands for what `randomUUID` gives next.
use codeberg.Base.{ℕ, ◌==◌, ◌&&◌, Bool, true, false, Option, none, List, []}
use codeberg.Text.{Text, trim, is_empty}

pub data ChatStatus : Type 0 where
  ready submitted streaming error : ChatStatus

pub record TurnInput : Type 0 where
  pub text : Text
  pub files : ℕ

pub record QueuedTurn : Type 0 where
  pub id : ℕ
  pub input : TurnInput

pub record Run : Type 0 where
  pub run_id : ℕ
  pub item : Option QueuedTurn

-- Where `stopAndSynchronize` waits: for both `stop` calls, for the run that was active then, and
-- for `synchronize`.
pub data Stage : Type 0 where
  calling synchronizing : Stage
  draining : Option ℕ → Stage

-- Who waits for `stopping`: `stop`, `steer` with its intent and its turn, and `retry`.
pub data Waiter : Type 0 where
  stops retries : Waiter
  steers : ℕ → QueuedTurn → Waiter

pub record Queue : Type 0 where
  pub items : List QueuedTurn
  pub paused : Bool
  pub steering : Bool
  pub failed : Bool
  pub active : Option ℕ
  pub runs : List Run
  pub stopping : Option Stage
  pub waiting : List Waiter
  pub needs_synchronization : Bool
  pub disposed : Bool
  pub intent : ℕ
  pub status : ChatStatus
  pub next : ℕ
  pub remote : Bool
  pub synchronizes : Bool

abbrev pub initial : Bool → Bool → ChatStatus → Queue
initial remote synchronizes status = record {
  items = [];
  paused = false;
  steering = false;
  failed = false;
  active = none;
  runs = [];
  stopping = none;
  waiting = [];
  needs_synchronization = false;
  disposed = false;
  intent = 0;
  status = status;
  next = 0;
  remote = remote;
  synchronizes = synchronizes;
}

abbrev pub is_error : ChatStatus → Bool
is_error error = true
is_error _ = false

abbrev pub is_generating : ChatStatus → Bool
is_generating submitted = true
is_generating streaming = true
is_generating _ = false

-- `!input.text.trim() && !input.files?.length`
abbrev pub is_blank : TurnInput → Bool
is_blank input = is_empty (trim input.text) && input.files == 0
