-- ===== src/Runs/History.antt =====
-- Whether a request continues the saved chat: agent/src/web/runs/validation.ts.
pub mod Laws
use codeberg.Base.{
  ℕ, ◌==◌, leb, ltb, ◌&&◌, ◌||◌, not, if◌then◌else◌, Bool, true, false, Option, none, some, List,
  [], ◌∷◌, ◌++◌, length, drop,
}
use codeberg.Text.{Text, same_text}
use codeberg.Runs.Run.{
  Role, same_role, is_assistant, Message, Trigger, regenerates, RunInput, Session,
}

unfoldable pub matches_history : Message → Message → Bool
matches_history saved submitted =
    saved.id == submitted.id
    && same_role saved.role submitted.role
    && (is_assistant saved.role || same_text saved.body submitted.body)

-- `messages.at(-1)?.role === 'assistant'`, and `messages.slice(0, -1)`.
unfoldable pub ends_with_answer : List Message → Bool
ends_with_answer [] = false
ends_with_answer (message ∷ []) = is_assistant message.role
ends_with_answer (message ∷ (next ∷ rest)) = ends_with_answer (next ∷ rest)

unfoldable pub without_last : List Message → List Message
without_last [] = []
without_last (message ∷ []) = []
without_last (message ∷ (next ∷ rest)) = message ∷ without_last (next ∷ rest)

abbrev pub prefix_of : Trigger → List Message → List Message
prefix_of trigger messages =
    if regenerates trigger && ends_with_answer messages then without_last messages else messages

unfoldable pub all_match : List Message → List Message → Bool
all_match [] submitted = true
all_match (saved ∷ rest) [] = false
all_match (saved ∷ rest) (message ∷ messages) =
    matches_history saved message && all_match rest messages

abbrev pub is_valid_length : Trigger → ℕ → ℕ → Bool
is_valid_length trigger submitted saved =
    if regenerates trigger then submitted == saved else ltb saved submitted

-- The messages that the run is given, `none` where it throws.
unfoldable pub continued : List Message → Trigger → List Message → Option (List Message)
continued saved trigger submitted =
    let prefix = prefix_of trigger saved in
    if is_valid_length trigger (length submitted) (length prefix) && all_match prefix submitted
    then some (prefix ++ drop (length prefix) submitted)
    else none

unfoldable pub validate_history :
    {Request : Type 0} → Option Session → RunInput Request → Option (List Message)
validate_history none input = some input.messages
validate_history (some session) input = elim session.server_run_id [
  | none ↦ some input.messages
  | some id ↦ continued session.messages input.trigger input.messages
]
