-- ===== src/History/Fit.antt =====
-- Fitting the history into a token budget: agent/src/core/history.ts.
--
-- The two callbacks are arguments: `archive` stores a text and may give its path, `summarize`
-- gives a summary or an error, of which the code asks only what class it is. The abort signal is
-- read at two moments, and has a Boolean for each.
pub mod Laws
pub mod Errors
mod Marker
use codeberg.Text.{Text, codes, is_empty, trim}
use codeberg.Base.{
  ℕ, zero, suc, ◌+◌, ◌-◌, ◌/◌, ◌%◌, leb, ltb, ◌==◌, min, ◌&&◌, ◌||◌, not, if◌then◌else◌, Bool, true,
  false, Option, none, some, List, [], ◌∷◌, ◌++◌, take, drop, length,
}
use codeberg.History.Messages.{Role, system, user, assistant, tool, ModelMessage, total_tokens}
use codeberg.History.Recent.{recent_history_start}
use codeberg.History.Files.{open_tag, close_tag, history_files_in, dedupe}

abbrev pub summary_input_chars : ℕ
summary_input_chars = 80000

abbrev pub note : Text
note =
    10 ∷ 10 ∷ (codes "[middle omitted; the history file has the full transcript]" ++ 10 ∷ 10 ∷ [])

-- `full.slice(-n)`, empty for 0.
abbrev pub tail_of : ℕ → Text → Text
tail_of n full = drop (length full - n) full

unfoldable pub bound_transcript : Text → ℕ → Text
bound_transcript full max_chars =
    let available = max_chars - length note in
    let tail_chars = min 24000 (available / 3) in
    if leb (length full) max_chars
    then full
    else take max_chars (take (available - tail_chars) full ++ (note ++ tail_of tail_chars full))

pub data Failure : Type 0 where
  incomplete_summary context_overflow other_error : Failure

pub data Result {ℓ} (A : Type ℓ) : Type ℓ where
  ok : A → Result A
  aborted : Result A
  failed : Failure → Result A

pub data Archived : Type 0 where
  stored : Text → Archived
  no_path threw : Archived

pub data Summarized : Type 0 where
  summary : Text → Summarized
  refused : Failure → Summarized

pub record FitOptions : Type 0 where
  pub aborted_before : Bool
  pub aborted_after : Bool
  pub budget : ℕ
  pub keep_recent : Option ℕ
  pub summarize : Option (Text → Summarized)
  pub archive : Option (Text → Archived)

abbrev pub digit : ℕ → ℕ
digit n = b'0' + n

-- A count in decimal; the fuel is more than the digits.
unfoldable pub decimal_from : ℕ → ℕ → Text → Text
decimal_from zero n out = out
decimal_from (suc fuel) n out =
    let rest = decimal_from fuel (n / 10) (digit (n % 10) ∷ out) in
    if ltb n 10 then digit n ∷ out else rest

unfoldable pub decimal : ℕ → Text
decimal n = decimal_from (suc n) n []

abbrev pub role_name : Role → Text
role_name system = codes "system"
role_name user = codes "user"
role_name assistant = codes "assistant"
role_name tool = codes "tool"

-- `Array.prototype.join`.
abbrev pub join : Text → List Text → Text
join sep [] = []
join sep (t ∷ []) = t
join sep (t ∷ (u ∷ rest)) = t ++ (sep ++ join sep (u ∷ rest))

abbrev pub map_text {ℓ} : {A : Type ℓ} → (A → Text) → List A → List Text
map_text f [] = []
map_text f (x ∷ xs) = f x ∷ map_text f xs

unfoldable pub render_transcript : List ModelMessage → Text
render_transcript messages = join (10 ∷ 10 ∷ []) (
    map_text (λ message. codes "## " ++ (role_name message.role ++ 10 ∷ message.transcript))
      messages)

unfoldable pub archive_transcript : Option (Text → Archived) → Text → Option Text
archive_transcript none transcript = none
archive_transcript (some archive) transcript = elim (archive transcript) [
  | stored path ↦ if is_empty (trim path) then none else some (trim path)
  | no_path ↦ none
  | threw ↦ none
]

abbrev pub tag : Text → Text
tag file = open_tag ++ (file ++ close_tag)

abbrev pub advice : Text
advice =
    codes
      "The summary omits detail. Search each history file with context_grep before treating a missing path, symbol, line range, command, or decision as unknown."

unfoldable pub file_block : List Text → Text
file_block [] = []
file_block (file ∷ files) = 10 ∷ (join (10 ∷ []) (map_text tag (file ∷ files)) ++ 10 ∷ advice)

abbrev pub summary_text : Text → Text
summary_text s =
    codes "<conversation_summary>" ++ (10 ∷ (s ++ (10 ∷ codes "</conversation_summary>")))

abbrev pub omission_text : ℕ → Text
omission_text omitted =
    codes "[" ++ (decimal omitted ++ codes " earlier message(s) omitted to fit the context window]")

-- A user message whose content is a string: both its texts are that string.
abbrev pub user_message : Text → ModelMessage
user_message content = record { role = user; text = content; transcript = content }

unfoldable pub history_marker : Option Text → ℕ → List Text → ModelMessage
history_marker (some s) omitted files = user_message (summary_text s ++ file_block files)
history_marker none omitted files = user_message (omission_text omitted ++ file_block files)

-- The `catch` of `summarizeArchived`: with an archive at hand some errors give no summary.
abbrev pub without_summary : Failure → List Text → Result (Option Text)
without_summary incomplete_summary (f ∷ fs) = ok none
without_summary context_overflow (f ∷ fs) = ok none
without_summary e files = failed e

unfoldable pub summarize_archived : (Text → Summarized) → Text → List Text → Result (Option Text)
summarize_archived summarize full files =
    elim (summarize (bound_transcript full summary_input_chars)) [
      | summary s ↦
          if is_empty (trim s) then without_summary incomplete_summary files else ok (some s)
      | refused e ↦ without_summary e files
    ]

abbrev pub appended : Option Text → List Text
appended none = []
appended (some path) = path ∷ []

-- `fitHistory` after the archive, with the older messages' files.
unfoldable pub with_marker :
    FitOptions → ℕ → Text → List Text → List ModelMessage → Result (List ModelMessage)
with_marker o omitted full files recent = elim o.summarize [
  | none ↦ ok (history_marker none omitted files ∷ recent)
  | some summarize ↦ (elim (summarize_archived summarize full files) [
    | aborted ↦ aborted
    | failed e ↦ failed e
    | ok s ↦
        if leb (total_tokens (history_marker s omitted files ∷ recent)) o.budget
        then ok (history_marker s omitted files ∷ recent)
        else ok (history_marker none omitted files ∷ recent)
  ])
]

unfoldable pub fit_over : FitOptions → List ModelMessage → ℕ → Result (List ModelMessage)
fit_over o messages zero = ok messages
fit_over o messages (suc before) =
    let older = take (suc before) messages in
    let full = render_transcript older in
    let files = dedupe (history_files_in older ++ appended (archive_transcript o.archive full)) in
    if o.aborted_after
    then aborted
    else with_marker o (length older) full files (drop (suc before) messages)

-- `older.length === 0` exactly when the split is 0.
unfoldable pub fit_history : List ModelMessage → FitOptions → Result (List ModelMessage)
fit_history messages o =
    if o.aborted_before
    then aborted
    else if leb (total_tokens messages) o.budget
    then ok messages
    else fit_over o messages (recent_history_start messages o.budget o.keep_recent)
