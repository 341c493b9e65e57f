-- ===== src/History/Checkpoints.antt =====
-- Checkpoints of fitted chats: agent/src/core/history-checkpoints.ts.
--
-- The digest, the fingerprint of a message and whether a path resolves are arguments. `files` is the
-- directory of one policy, budget and number of recent exchanges to keep.
pub mod Markers
pub mod Laws
pub mod Again
mod Tests
use codeberg.Base.{
  ℕ, zero, suc, ◌+◌, ◌-◌, ◌==◌, leb, ◌&&◌, ◌||◌, not, if◌then◌else◌, Bool, true, false, Option,
  none, some, List, [], ◌∷◌, ◌++◌, length, drop, get_elem?,
}
use codeberg.Text.{Text, codes, same_text, strip_prefix, starts_with}
use codeberg.Prefixes.{prefix_keys, has_archives, load}
use codeberg.History.Messages.{Role, user, ModelMessage, total_tokens}
use codeberg.History.Files.{open_tag, captures}
use codeberg.History.Recent.{recent_history_start}
use codeberg.History.Fit.{Result, ok, aborted, failed, FitOptions, user_message, fit_history}

-- The content of the marker is `none` where it is no string.
pub record Checkpoint : Type 0 where
  pub count : ℕ
  pub hash : Text
  pub role : Role
  pub content : Option Text

abbrev pub Files : Type 0
Files = List (Text × Option Checkpoint)

pub record Run : Type 0 where
  pub result : Result (List ModelMessage)
  pub files : Files

abbrev pub is_user : Role → Bool
is_user user = true
is_user _ = false

abbrev pub is_digit : ℕ → Bool
is_digit c = leb b'0' c && leb c b'9'

unfoldable pub skip_digits : Text → Text
skip_digits [] = []
skip_digits (c ∷ t) = if is_digit c then skip_digits t else c ∷ t

abbrev pub starts_with_digit : Text → Bool
starts_with_digit [] = false
starts_with_digit (c ∷ t) = is_digit c

abbrev pub after_bracket : Option Text → Bool
after_bracket none = false
after_bracket (some t) =
    starts_with_digit t && starts_with (skip_digits t) (codes " earlier message(s) omitted")

-- `/^\[\d+ earlier message\(s\) omitted/.test(t)`
unfoldable pub is_omission : Text → Bool
is_omission t = after_bracket (strip_prefix (codes "[") t)

unfoldable pub includes : Text → Text → Bool
includes [] part = starts_with [] part
includes (c ∷ t) part = starts_with (c ∷ t) part || includes t part

abbrev pub is_marker : Option Text → Bool
is_marker none = false
is_marker (some content) =
    starts_with content (codes "<conversation_summary>") || is_omission content

unfoldable pub valid_checkpoint : Checkpoint → Text → ℕ → Bool
valid_checkpoint saved hash count =
    same_text saved.hash hash
    && saved.count == count
    && is_user saved.role
    && is_marker saved.content

abbrev pub content_of : Option Text → Text
content_of none = []
content_of (some content) = content

abbrev pub accepts_checkpoint : (Text → Bool) → Text → ℕ → Checkpoint → Bool
accepts_checkpoint resolves hash count saved =
    valid_checkpoint saved hash count && has_archives resolves (captures (content_of saved.content))

-- `[saved.marker, ...messages.slice(saved.count)]`
abbrev pub restored : Option Checkpoint → List ModelMessage → List ModelMessage
restored none messages = messages
restored (some saved) messages = user_message (content_of saved.content) ∷ drop saved.count messages

-- Whether `fitHistory` returns the array that it was given.
abbrev pub is_same : List ModelMessage → FitOptions → Bool
is_same messages o =
    leb (total_tokens messages) o.budget
    || recent_history_start messages o.budget o.keep_recent == 0

abbrev pub count_before : Option Checkpoint → ℕ → ℕ
count_before none removed = removed
count_before (some saved) removed = saved.count + removed - 1

-- The record that is written for a fitted chat with the marker `first`.
abbrev pub record_of : List Text → ℕ → ModelMessage → Option Checkpoint
record_of hashes count first =
    if count == 0 || not (includes first.text open_tag)
    then none
    else (elim (get_elem? hashes (count - 1)) [
      | none ↦ none
      | some hash ↦
          some (record { count = count; hash = hash; role = user; content = some first.text })
    ])

abbrev pub written_to : Bool → Files → Option Checkpoint → Files
written_to written files none = files
written_to written files (some saved) = if written then (saved.hash, some saved) ∷ files else files

-- What is saved of a fitted chat that is not the one given.
unfoldable pub save_fitted :
    Bool → Option Checkpoint → List Text → ℕ → List ModelMessage → Files → Files
save_fitted written saved hashes size [] files = files
save_fitted written saved hashes size (first ∷ rest) files =
    if is_user first.role
    then written_to written files (record_of hashes (count_before saved (size - length rest)) first)
    else files

unfoldable pub finish :
    Bool → Option Checkpoint → List Text → Bool → ℕ → Files → Result (List ModelMessage) → Run
finish written saved hashes same size files (ok fitted) = record {
  result = ok fitted;
  files = if same then files else save_fitted written saved hashes size fitted files;
}
finish written saved hashes same size files aborted = record { result = aborted; files = files }
finish written saved hashes same size files (failed e) = record { result = failed e; files = files }

module _ (digest : Text → Text) (fingerprint : ModelMessage → Text) (resolves : Text → Bool) where
  unfoldable pub load_checkpoint : Files → List Text → Option Checkpoint
  load_checkpoint files hashes = load (accepts_checkpoint resolves) files 1 hashes

  -- `run`, where the write of a checkpoint is made or fails.
  unfoldable pub run : Bool → List ModelMessage → FitOptions → Files → Run
  run written messages o files =
      let hashes = prefix_keys digest fingerprint [] messages in
      let saved = load_checkpoint files hashes in
      let given = restored saved messages in
      finish written saved hashes (is_same given o) (length given) files (fit_history given o)
