-- ===== src/Runs/Run.antt =====
-- A run and the session of its chat: agent/src/web/runs/types.ts, and the fields of a session that
-- a run reads.
--
-- Ids of chats, runs and messages are compared and nothing else, so they are numbers. Of a run's
-- events the answer is kept that they amount to; times and the texts of errors are left out.
use codeberg.Base.{
  ℕ, ◌==◌, ◌&&◌, if◌then◌else◌, Bool, true, false, Option, none, some, List, [], ◌∷◌,
}
use codeberg.Text.{Text}

pub data Role : Type 0 where
  user assistant system : Role

abbrev pub same_role : Role → Role → Bool
same_role user user = true
same_role assistant assistant = true
same_role system system = true
same_role _ _ = false

abbrev pub is_assistant : Role → Bool
is_assistant role = same_role role assistant

pub record Message : Type 0 where
  pub id : ℕ
  pub role : Role
  pub body : Text

pub data Trigger : Type 0 where
  submit_message regenerate_message other_trigger : Trigger

abbrev pub regenerates : Trigger → Bool
regenerates regenerate_message = true
regenerates _ = false

pub data RunStatus : Type 0 where
  running completed stopped failed interrupted : RunStatus

abbrev pub is_running : RunStatus → Bool
is_running running = true
is_running _ = false

abbrev pub is_completed : RunStatus → Bool
is_completed completed = true
is_completed _ = false

pub data ToolState : Type 0 where
  tool_started tool_completed tool_failed : ToolState

-- A tool entry, with its JSON text.
pub record ToolEntry : Type 0 where
  pub id : Text
  pub state : ToolState
  pub json : Text

-- `RunInput`, for request ids of any type.
pub record RunInput (Request : Type 0) : Type 0 where
  pub chat_id : ℕ
  pub request : Request
  pub messages : List Message
  pub trigger : Trigger

-- `RunRecord`, with what the journal holds of the run's events.
pub record Run : Type 0 where
  pub chat_id : ℕ
  pub id : ℕ
  pub fingerprint : ℕ
  pub status : RunStatus
  pub messages : List Message
  pub answer : Option Message
  pub tools : List ToolEntry

-- `serverRunId` and the messages of a saved chat.
pub record Session : Type 0 where
  pub chat_id : ℕ
  pub server_run_id : Option ℕ
  pub messages : List Message

abbrev pub is_run : ℕ → ℕ → Run → Bool
is_run chat_id id run = run.chat_id == chat_id && run.id == id

-- The run of a directory `.runs/<chat>/<id>`.
unfoldable pub find_run : ℕ → ℕ → List Run → Option Run
find_run chat_id id [] = none
find_run chat_id id (run ∷ rest) =
    if is_run chat_id id run then some run else find_run chat_id id rest

-- Writing `run.json` in it.
unfoldable pub save_run : Run → List Run → List Run
save_run run [] = run ∷ []
save_run run (other ∷ rest) =
    let saved = save_run run rest in
    if is_run run.chat_id run.id other then run ∷ rest else other ∷ saved

unfoldable pub find_active : ℕ → List Run → Option Run
find_active chat_id [] = none
find_active chat_id (run ∷ rest) =
    if run.chat_id == chat_id then some run else find_active chat_id rest

unfoldable pub find_session : ℕ → List Session → Option Session
find_session chat_id [] = none
find_session chat_id (session ∷ rest) =
    if session.chat_id == chat_id then some session else find_session chat_id rest

unfoldable pub upsert : Session → List Session → List Session
upsert session [] = session ∷ []
upsert session (other ∷ rest) =
    let saved = upsert session rest in
    if other.chat_id == session.chat_id then session ∷ rest else other ∷ saved
