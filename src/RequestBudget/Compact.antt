-- ===== src/RequestBudget/Compact.antt =====
-- The compaction of a request: `compactRequest` of agent/src/core/request-budget/compact.ts.
--
-- The canonical text of a content, the file that `writeHistory` gives and what `summarize` returns
-- are arguments. Each message object occurs once in a prompt.
pub mod Laws
use codeberg.Base.{
  ℕ, zero, suc, ◌+◌, ◌-◌, ◌/◌, min, max, ltb, leb, not, ◌&&◌, if◌then◌else◌, Bool, true, false,
  Option, none, some, List, [], ◌∷◌, ◌++◌, length, take, keep_if,
}
use codeberg.Text.{Text, codes}
use codeberg.History.Messages.{estimate_tokens}
use codeberg.RequestBudget.Estimate.{
  Role, system, user, assistant, tool, same_role, text, Content, parts, Message, Request,
  messages_tokens, estimate_request,
}
use codeberg.RequestBudget.Split.{Split, split_request}

-- `RequestCheckpoint`
pub record RequestCheckpoint : Type 0 where
  pub count : ℕ
  pub marker : Message
  pub preserve_user : Option ℕ

pub data Summary : Type 0 where
  summarized : Text → Summary
  incomplete overflowed failed : Summary

pub record Compaction : Type 0 where
  pub request : Request
  -- What `saveCheckpoint` is called with.
  pub checkpoint : Option RequestCheckpoint

pub data Outcome : Type 0 where
  compacted : Compaction → Outcome
  over_budget threw : Outcome

abbrev pub is_system : Message → Bool
is_system message = same_role message.role system

abbrev pub is_body : Message → Bool
is_body message = not (is_system message)

abbrev pub role_name : Role → Text
role_name system = codes "system"
role_name user = codes "user"
role_name assistant = codes "assistant"
role_name tool = codes "tool"

abbrev pub fallback : Text
fallback = codes "Earlier work is archived. Recover details with context_grep and context_read."

-- `checkpointText`, `none` where it throws.
unfoldable pub checkpoint_text : Summary → Option Text
checkpoint_text (summarized t) = some t
checkpoint_text incomplete = some fallback
checkpoint_text overflowed = some fallback
checkpoint_text failed = none

abbrev pub archive_of : Text → Text
archive_of file = codes "<history_file>" ++ (file ++ codes "</history_file>")

abbrev pub marker_of : Text → Message
marker_of t = record { role = user; content = parts (text t ∷ []) }

abbrev pub summary_of : Text → Text → Text
summary_of summary archive =
    codes "<conversation_summary>"
    ++ 10 ∷ (summary ++ 10 ∷ (codes "</conversation_summary>" ++ 10 ∷ archive))

abbrev pub archived_of : Text → Text
archived_of archive =
    codes "[Older exchanges archived. Read with context_grep/context_read.]" ++ 10 ∷ archive

-- `request.prompt.slice(0, n).every((message) => message.role === 'system')`
unfoldable pub all_system : List Message → Bool
all_system [] = true
all_system (message ∷ rest) = is_system message && all_system rest

-- `request.prompt.indexOf` of the body's message at `i`.
unfoldable pub prompt_index : ℕ → List Message → ℕ
prompt_index i [] = 0
prompt_index zero (message ∷ rest) =
    let later = prompt_index zero rest in if is_system message then suc later else 0
prompt_index (suc i) (message ∷ rest) =
    suc (prompt_index (if is_system message then suc i else i) rest)

abbrev pub index_in : List Message → Option ℕ → Option ℕ
index_in prompt none = none
index_in prompt (some i) = some (prompt_index i prompt)

abbrev pub systems : Request → List Message
systems request = keep_if is_system request.prompt

abbrev pub bodies : Request → List Message
bodies request = keep_if is_body request.prompt

abbrev pub fixed_tokens : Request → ℕ
fixed_tokens request = estimate_request (record request { prompt = systems request })

abbrev pub with_marker : Request → Split → Message → Request
with_marker request split marker = record request {
  prompt = systems request ++ marker ∷ split.recent;
}

-- The summary's marker, or the short one where that does not fit.
abbrev pub chosen : Request → Split → ℕ → Text → Text → Message
chosen request split budget summary archive =
    if ltb budget
      (estimate_request (with_marker request split (marker_of (summary_of summary archive))))
    then marker_of (archived_of archive)
    else marker_of (summary_of summary archive)

abbrev pub checkpoint_of : Request → Split → Message → Option RequestCheckpoint
checkpoint_of request split marker =
    if all_system (take (length (systems request)) request.prompt)
    then some (record {
      count = length request.prompt - split.tail;
      marker = marker;
      preserve_user = index_in request.prompt split.preserve;
    })
    else none

-- From the second look at the size.
unfoldable pub compacted_with : Request → Split → ℕ → Message → Outcome
compacted_with request split budget marker =
    if ltb budget (estimate_request (with_marker request split marker))
    then over_budget
    else compacted (record {
      request = with_marker request split marker;
      checkpoint = checkpoint_of request split marker;
    })

unfoldable pub transcript_of : (Content → Text) → List Message → Text
transcript_of canonical [] = []
transcript_of canonical (message ∷ []) =
    codes "## " ++ (role_name message.role ++ 10 ∷ canonical message.content)
transcript_of canonical (message ∷ (next ∷ rest)) =
    codes "## "
    ++ (role_name message.role
        ++ 10 ∷ (canonical message.content ++ 10 ∷ 10 ∷ transcript_of canonical (next ∷ rest)))

abbrev pub room_of : Request → Split → ℕ → ℕ
room_of request split budget = budget - fixed_tokens request - messages_tokens split.recent

module _ (summarize : Text → ℕ → Summary) where
  unfoldable pub summarized_with : Request → Split → ℕ → Text → Text → Outcome
  summarized_with request split budget transcript archive =
      elim (checkpoint_text
        (summarize transcript (max 1 (min 2000 (room_of request split budget / 2))))) [
          | none ↦ threw
          | some summary ↦
              compacted_with request split budget (chosen request split budget summary archive)
        ]

  unfoldable pub archived_with : Request → Split → ℕ → Text → Option Text → Outcome
  archived_with request split budget transcript none = threw
  archived_with request split budget transcript (some file) =
      if leb (room_of request split budget) (estimate_tokens (archive_of file) + 32)
      then over_budget
      else summarized_with request split budget transcript (archive_of file)

module _ (canonical : Content → Text) (write_history : Text → Option Text)
    (summarize : Text → ℕ → Summary) where
  unfoldable pub compact_split : Request → Split → ℕ → List Message → Outcome
  compact_split request split budget [] = over_budget
  compact_split request split budget (message ∷ older) =
      let transcript = transcript_of canonical (message ∷ older) in
      archived_with summarize request split budget transcript (write_history transcript)

  unfoldable pub compact_request : Request → ℕ → Outcome
  compact_request request budget =
      let split = split_request (bodies request) (budget - fixed_tokens request) in
      compact_split request split budget split.older
