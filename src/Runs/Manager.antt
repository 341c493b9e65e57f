-- ===== src/Runs/Manager.antt =====
-- Admission of runs: agent/src/web/runs/manager.ts, with recovery.ts, persistence.ts and the early
-- stops of stopping.ts.
--
-- The admissions of one chat run one after the other, so each is a step. The hash that makes ids
-- and fingerprints, the pattern of valid ids, and what becomes of the writes are arguments.
pub mod Events
pub mod Stored
pub mod Starts
pub mod Kept
pub mod Once
mod Tests
use codeberg.Base.{
  ℕ, ◌==◌, ◌&&◌, ◌||◌, not, if◌then◌else◌, is_some, Bool, true, false, Option, none, some, List, [],
  ◌∷◌, ◌++◌, keep_if,
}
use codeberg.Runs.Run.{
  RunStatus, running, completed, interrupted, is_running, Message, RunInput, Run, ToolEntry,
  Session, Trigger, is_run, find_run, save_run, find_active, find_session, upsert,
}
use codeberg.Runs.History.{validate_history}

pub record Names (Request : Type 0) : Type 0 where
  pub hash : ℕ → Request → ℕ
  pub fingerprint : List Message → Trigger → ℕ
  pub is_valid_chat : ℕ → Bool
  pub is_valid_request : Request → Bool

-- The fields of `SearchRuns`, with the directories and sessions on disk.
pub record SearchRuns : Type 0 where
  pub active : List Run
  pub stored : List Run
  pub sessions : List Session
  pub requested : List ℕ
  pub closed : Bool

-- A run as `find` returns it.
pub record Found : Type 0 where
  pub run : Run
  pub settled : Bool

pub data Admission : Type 0 where
  admitted existing : Found → Admission
  refused : ℕ → Admission
  threw : Admission

-- What becomes of the writes of an admission.
pub data Storage : Type 0 where
  writes throws throws_and_keeps : Storage

abbrev pub recovered : Run → Run
recovered run = if is_running run.status then record run { status = interrupted } else run

-- `find(chatId, id)` for valid ids, as `start` and the saved chats give them. A run that is loaded
-- has no live owner.
unfoldable pub load : ℕ → ℕ → SearchRuns → SearchRuns × Option Found
load chat_id id s = elim (find_run chat_id id s.stored) [
  | none ↦ (s, none)
  | some run ↦ (
    record s { stored = save_run (recovered run) s.stored },
    some (record { run = recovered run; settled = true }),
  )
]

abbrev pub is_live : ℕ → Option Run → Bool
is_live id none = false
is_live id (some run) = run.id == id

unfoldable pub find : ℕ → ℕ → SearchRuns → SearchRuns × Option Found
find chat_id id s = elim (find_active chat_id s.active) [
  | none ↦ load chat_id id s
  | some live ↦
      if live.id == id
      then (s, some (record { run = live; settled = false }))
      else load chat_id id s
]

-- `find(chatId)`: the run that the saved chat names.
unfoldable pub find_latest : ℕ → SearchRuns → SearchRuns × Option Found
find_latest chat_id s = elim (find_session chat_id s.sessions) [
  | none ↦ (s, none)
  | some session ↦ (elim session.server_run_id [ none ↦ (s, none) | some id ↦ find chat_id id s ])
]

unfoldable pub is_requested : ℕ → List ℕ → Bool
is_requested id [] = false
is_requested id (x ∷ rest) = x == id || is_requested id rest

abbrev pub not_of_chat : ℕ → Run → Bool
not_of_chat chat_id run = not (run.chat_id == chat_id)

-- `active.delete` and `active.set`.
abbrev pub delete_active : ℕ → List Run → List Run
delete_active chat_id runs = keep_if (not_of_chat chat_id) runs

abbrev pub set_active : Run → List Run → List Run
set_active run runs = run ∷ delete_active run.chat_id runs

abbrev pub is_other : Run → Run → Bool
is_other run other = not (is_run run.chat_id run.id other)

-- From `journal.create` on.
unfoldable pub launch : Storage → Run → SearchRuns → SearchRuns × Admission
launch writes run s = (
  record s {
    active = set_active run s.active;
    stored = save_run run s.stored;
    sessions =
        upsert
          (record { chat_id = run.chat_id; server_run_id = some run.id; messages = run.messages })
          s.sessions;
  },
  admitted (record { run = run; settled = false }),
)
launch throws run s = (
  record s {
    active = delete_active run.chat_id (set_active run s.active);
    stored = keep_if (is_other run) s.stored;
  },
  threw,
)
launch throws_and_keeps run s = (
  record s {
    active = delete_active run.chat_id (set_active run s.active);
    stored = save_run run s.stored;
  },
  threw,
)

module _ {Request : Type 0} (names : Names Request) where
  abbrev pub new_run : RunInput Request → List Message → Run
  new_run input messages = record {
    chat_id = input.chat_id;
    id = names.hash input.chat_id input.request;
    fingerprint = names.fingerprint input.messages input.trigger;
    status = running;
    messages = messages;
    answer = none;
    tools = [];
  }

  abbrev pub is_valid_input : RunInput Request → Bool
  is_valid_input input = names.is_valid_chat input.chat_id && names.is_valid_request input.request

  -- What `start` does with a request that has a run.
  unfoldable pub again : RunInput Request → Found → Admission
  again input found =
      if found.run.fingerprint == names.fingerprint input.messages input.trigger
      then existing found
      else refused 409

  -- What it does with one that has none.
  unfoldable pub start_new : Storage → RunInput Request → SearchRuns → SearchRuns × Admission
  start_new storage input s =
      if is_some (find_active input.chat_id s.active)
      then (s, refused 409)
      else (elim (validate_history (find_session input.chat_id s.sessions) input) [
        | none ↦ (s, refused 409)
        | some messages ↦
            if is_requested (names.hash input.chat_id input.request) s.requested
            then (s, refused 409)
            else launch storage (new_run input messages) s
      ])

  unfoldable pub start_valid :
      Storage → RunInput Request → SearchRuns × Option Found → SearchRuns × Admission
  start_valid storage input (s, none) = start_new storage input s
  start_valid storage input (s, some found) = (s, again input found)

  unfoldable pub start : Storage → RunInput Request → SearchRuns → SearchRuns × Admission
  start storage input s =
      if s.closed
      then (s, refused 503)
      else if not (is_valid_input input)
      then (s, refused 400)
      else start_valid storage input (find input.chat_id (names.hash input.chat_id input.request) s)

  -- `stop` by a request, up to its first wait.
  unfoldable pub request_stop : ℕ → Request → SearchRuns → SearchRuns
  request_stop chat_id request s = record s { requested = names.hash chat_id request ∷ s.requested }
