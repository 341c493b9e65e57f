-- ===== src/History/Checkpoints/Tests.antt =====
-- A chat that is fitted, saved and taken up again.
use codeberg.Base.{◌≡◌, Bool, true, false, none, some, refl, List, [], ◌∷◌, ◌++◌, length}
use codeberg.Text.{Text, codes, is_space, strip_prefix, trim, trim_end, trim_start}
use codeberg.Prefixes.{prefix_keys, read_file, check, load, all_resolve}
use codeberg.History.Messages.{
  user, assistant, ModelMessage, Role, message_tokens, total_tokens, estimate_tokens,
}
use codeberg.History.Recent.{recent_history_start, recent_from, exchange_start}
use codeberg.History.Files.{
  captures, match_here, match_group, trimmed, history_files_in, has, dedupe, dedupe_from,
}
use codeberg.History.Fit.{
  FitOptions, stored, ok, fit_history, fit_over, with_marker, archive_transcript, decimal,
  decimal_from, file_block, history_marker, render_transcript,
}
use codeberg.History.Checkpoints.{
  Checkpoint, Run, restored, load_checkpoint, run, finish, save_fitted, includes,
}
use codeberg.History.Checkpoints.Again.{saved-restored}

abbrev said : Role → Text → ModelMessage
said r t = record { role = r; text = t; transcript = t }

abbrev chat : List ModelMessage
chat =
    said user (codes "old question about jobs")
    ∷ said assistant (codes "done")
    ∷ said user (codes "the next question")
    ∷ said assistant (codes "the next answer")
    ∷ []

abbrev more_messages : List ModelMessage
more_messages = said user (codes "and now?") ∷ []

abbrev options : FitOptions
options = record {
  aborted_before = false;
  aborted_after = false;
  budget = 10;
  keep_recent = none;
  summarize = none;
  archive = some (λ t. stored (codes "c.md"));
}

abbrev digest : Text → Text
digest t = length t ∷ []

abbrev print : ModelMessage → Text
print message = message.text

abbrev always : Text → Bool
always path = true

abbrev fitted_run : Run
fitted_run = run digest print always true chat options []

abbrev fitted : List ModelMessage
fitted = elim fitted_run.result [ ok r ↦ r | _ ↦ [] ]

abbrev empty_checkpoint : Checkpoint
empty_checkpoint = record { count = 0; hash = []; role = user; content = none }

abbrev saved : Checkpoint
saved = elim fitted_run.files [ (key, some c) ∷ rest ↦ c | _ ↦ empty_checkpoint ]

saved_test : (saved.count ≡ 2) × (saved.hash ≡ 5 ∷ [])
unfolding run finish fit_history total_tokens load_checkpoint load prefix_keys check read_file
    message_tokens estimate_tokens fit_over recent_history_start recent_from exchange_start
    with_marker save_fitted includes dedupe dedupe_from has history_files_in captures match_here
    match_group trimmed archive_transcript decimal decimal_from file_block history_marker
    render_transcript all_resolve is_space strip_prefix trim trim_end trim_start
saved_test = (refl, refl)

saved-restored_example :
    restored
      (load_checkpoint digest print always
        ((saved.hash, some saved) ∷ [])
        (prefix_keys digest print [] (chat ++ more_messages)))
      (chat ++ more_messages)
    ≡ fitted ++ more_messages
unfolding run finish fit_history total_tokens load_checkpoint load prefix_keys check read_file
    message_tokens estimate_tokens fit_over recent_history_start recent_from exchange_start
    with_marker save_fitted includes dedupe dedupe_from has history_files_in captures match_here
    match_group trimmed archive_transcript decimal decimal_from file_block history_marker
    render_transcript all_resolve is_space strip_prefix trim trim_end trim_start
saved-restored_example =
    saved-restored digest print always chat more_messages options fitted saved.hash saved refl refl
