-- ===== src/Runs/Manager/Events.antt =====
-- The other events of runs: the end of a run (the last steps of `executeRun` and of `start`), a
-- stop, `close`, and a restart with `recover`.
use codeberg.Base.{
  ℕ, ◌==◌, if◌then◌else◌, not, Bool, true, false, Option, none, some, List, [], ◌∷◌, ◌++◌,
}
use codeberg.Runs.Run.{
  RunStatus, Message, RunInput, Run, ToolEntry, Session, save_run, find_active, find_session,
  upsert,
}
use codeberg.Runs.Manager.{Names, SearchRuns, Storage, load, delete_active, start, request_stop}

abbrev pub run_messages : Run → List Message
run_messages run = elim run.answer [
  | none ↦ run.messages
  | some answer ↦ run.messages ++ answer ∷ []
]

abbrev pub is_latest : ℕ → Option ℕ → Bool
is_latest id none = false
is_latest id (some latest) = latest == id

-- `saveRunSession`: an older run does not overwrite a newer turn.
unfoldable pub save_run_session : Run → SearchRuns → SearchRuns
save_run_session run s = elim (find_session run.chat_id s.sessions) [
  | none ↦ s
  | some session ↦
      if is_latest run.id session.server_run_id
      then record s {
        sessions =
            upsert
              (record {
                chat_id = run.chat_id;
                server_run_id = some run.id;
                messages = run_messages run;
              })
              s.sessions;
      }
      else s
]

-- What a run leaves: how it ended, its answer and its tools, and whether the journal and the
-- session could be saved.
pub record Ending : Type 0 where
  pub status : RunStatus
  pub answer : Option Message
  pub tools : List ToolEntry
  pub is_recorded : Bool
  pub is_saved : Bool

abbrev pub journalled : Ending → Run → Run
journalled ending run = record run { answer = ending.answer; tools = ending.tools }

abbrev pub ended : Ending → Run → Run
ended ending run = record (journalled ending run) { status = ending.status }

unfoldable pub save_end : Ending → Run → SearchRuns → SearchRuns
save_end ending run s =
    let recorded = record s { stored = save_run (ended ending run) s.stored } in
    if not ending.is_recorded
    then record s { stored = save_run (journalled ending run) s.stored }
    else if ending.is_saved
    then save_run_session (ended ending run) recorded
    else recorded

unfoldable pub finish : ℕ → Ending → SearchRuns → SearchRuns
finish chat_id ending s = elim (find_active chat_id s.active) [
  | none ↦ s
  | some run ↦
      let saved = save_end ending run s in
      record saved { active = delete_active chat_id saved.active }
]

-- One turn of the loop of `recover`.
unfoldable pub recover_session : Session → SearchRuns → SearchRuns
recover_session session s = elim session.server_run_id [
  | none ↦ s
  | some id ↦
      let (loaded, found) = load session.chat_id id s in
      elim found [ none ↦ loaded | some f ↦ save_run_session f.run loaded ]
]

unfoldable pub recover : List Session → SearchRuns → SearchRuns
recover [] s = s
recover (session ∷ rest) s = recover rest (recover_session session s)

-- A new process knows what is on disk.
unfoldable pub restart : SearchRuns → SearchRuns
restart s = recover s.sessions (record s { active = []; requested = []; closed = false })

pub data Event (Request : Type 0) : Type 0 where
  admits : Storage → RunInput Request → Event Request
  finishes : ℕ → Ending → Event Request
  stops : ℕ → Request → Event Request
  closes restarts : Event Request

module _ {Request : Type 0} (names : Names Request) where
  unfoldable pub step : Event Request → SearchRuns → SearchRuns
  step (admits storage input) s = (start names storage input s).0
  step (finishes chat_id ending) s = finish chat_id ending s
  step (stops chat_id request) s = request_stop names chat_id request s
  step closes s = record s { closed = true }
  step restarts s = restart s

  unfoldable pub steps : List (Event Request) → SearchRuns → SearchRuns
  steps [] s = s
  steps (e ∷ es) s = steps es (step e s)
