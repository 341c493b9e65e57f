-- ===== src/Runs/Manager/Tests.antt =====
-- Runs of two chats: theorems of admission at inputs that meet their hypotheses.
use codeberg.Base.{ℕ, ◌+◌, ◌*◌, ◌≡◌, true, false, some, [], ◌∷◌, length, refl}
use codeberg.Text.{codes}
use codeberg.Runs.Run.{
  Message, user, assistant, RunInput, submit_message, completed, Run, find_active, find_run,
  find_session,
}
use codeberg.Runs.History.{
  continued, matches_history, all_match, ends_with_answer, without_last, validate_history,
}
use codeberg.Runs.History.Laws.{IsContinued, continued-IsContinued}
use codeberg.Runs.Manager.{
  Names, SearchRuns, writes, throws, start, new_run, find, load, start_new, start_valid, launch,
  is_requested,
}
use codeberg.Runs.Manager.Events.{Event, finishes, restarts, steps}
use codeberg.Runs.Manager.Once.{IsRepeat, admitted_once}

abbrev names : Names ℕ
names = record {
  hash = λ chat request. 100 * chat + request;
  fingerprint = λ messages trigger. length messages;
  is_valid_chat = λ chat. true;
  is_valid_request = λ request. true;
}

abbrev fresh : SearchRuns
fresh = record { active = []; stored = []; sessions = []; requested = []; closed = false }

abbrev question : Message
question = record { id = 1; role = user; body = codes "why?" }

abbrev answer : Message
answer = record { id = 2; role = assistant; body = codes "so." }

abbrev shown : Message
shown = record { id = 2; role = assistant; body = codes "so" }

abbrev more : Message
more = record { id = 3; role = user; body = codes "and?" }

abbrev asked : RunInput ℕ
asked = record { chat_id = 5; request = 8; messages = question ∷ []; trigger = submit_message }

abbrev asked_run : Run
asked_run = new_run names asked (question ∷ [])

abbrev ended_well : Event ℕ
ended_well = finishes 5 (record {
  status = completed;
  answer = some answer;
  tools = [];
  is_recorded = true;
  is_saved = true;
})

-- The run ends and the server restarts, and the page asks again.
admitted_once_example :
    let later = steps names (ended_well ∷ restarts ∷ []) (start names writes asked fresh).0 in
    IsRepeat 5 508 (start names throws asked later).1
    × ((start names throws asked later).0.active ≡ later.active)
unfolding start start_valid start_new find load launch validate_history find_active find_run
    find_session is_requested
admitted_once_example =
    admitted_once names writes throws asked asked fresh
      (record { run = asked_run; settled = false }) (ended_well ∷ restarts ∷ []) refl refl refl

abbrev other_asked : RunInput ℕ
other_asked = record {
  chat_id = 6;
  request = 8;
  messages = question ∷ [];
  trigger = submit_message;
}

abbrev under_way : SearchRuns
under_way = record fresh { active = asked_run ∷ []; stored = asked_run ∷ [] }

-- The page shows the answer with another text, and the run continues from the saved one.
continued-IsContinued_example :
    IsContinued
      (question ∷ answer ∷ [])
      submit_message
      (question ∷ shown ∷ more ∷ [])
      (question ∷ answer ∷ more ∷ [])
unfolding continued matches_history all_match ends_with_answer without_last
continued-IsContinued_example =
    continued-IsContinued (question ∷ answer ∷ []) submit_message (question ∷ shown ∷ more ∷ [])
      (question ∷ answer ∷ more ∷ []) refl
