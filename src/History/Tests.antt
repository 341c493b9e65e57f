-- ===== src/History/Tests.antt =====
-- A short conversation: the theorems of the history at inputs that meet their hypotheses, and runs
-- of its operations.
use codeberg.Text.{Text, codes, is_space, strip_prefix, trim, trim_end, trim_start}
use codeberg.Base.{
  ℕ, ◌≡◌, ◌⊎◌, false, Option, none, some, arith, refl, List, [], ◌∷◌, ◌++◌, In, here, drop,
}
use codeberg.History.Messages.{
  Role, user, assistant, ModelMessage, estimate_tokens, message_tokens, total_tokens,
}
use codeberg.History.Files.{
  match_group, match_here, captures, trimmed, history_files_in, has, dedupe_from, dedupe,
}
use codeberg.History.Recent.{recent_from, recent_history_start, allowance, exchange_start}
use codeberg.History.Recent.Laws.{IsRecentStart, recent_history_start-IsRecentStart}
use codeberg.History.Fit.{
  Archived, stored, Summarized, refused, context_overflow, other_error, FitOptions, ok, fit_history,
  decimal, decimal_from, tag, render_transcript, fit_over, with_marker, history_marker, file_block,
  archive_transcript, summarize_archived,
}
use codeberg.History.Fit.Laws.{fit_keeps_files, fit_keeps_recent, fitted_files, start_of}
use codeberg.History.Fit.Errors.{fit_fails_without_files}

abbrev message : Role → Text → ModelMessage
message r t = record { role = r; text = t; transcript = t }

abbrev conversation : List ModelMessage
conversation =
    message user (codes "old " ++ tag (codes " a/b.md "))
    ∷ message assistant (codes "done")
    ∷ message user (codes "the next question")
    ∷ message assistant (codes "the next answer")
    ∷ []

abbrev options : ℕ → Option (Text → Summarized) → Option (Text → Archived) → FitOptions
options n s a = record {
  aborted_before = false;
  aborted_after = false;
  budget = n;
  keep_recent = none;
  summarize = s;
  archive = a;
}

abbrev fitted : FitOptions → List ModelMessage
fitted o = elim (fit_history conversation o) [ ok r ↦ r | _ ↦ [] ]

abbrev dropping : FitOptions
dropping = options 10 none (some (λ t. stored (codes "c.md")))

abbrev refusing : FitOptions
refusing = options 8 (some (λ t. refused context_overflow)) none

decimal_test : decimal 1024 ≡ codes "1024"
unfolding decimal decimal_from
decimal_test = refl

captures_test :
    captures (codes "x<history_file>p</history_file><history_file>q<</history_file>")
    ≡ codes "p" ∷ []
unfolding captures match_here strip_prefix match_group
captures_test = refl

start_test : recent_history_start conversation 10 none ≡ 2
unfolding recent_history_start recent_from exchange_start total_tokens message_tokens
    estimate_tokens
start_test = refl

files_test : history_files_in (fitted dropping) ≡ codes "a/b.md" ∷ codes "c.md" ∷ []
unfolding history_files_in trimmed trim trim_end trim_start is_space captures match_here
    strip_prefix match_group fit_history fit_over with_marker total_tokens message_tokens
    estimate_tokens recent_history_start recent_from exchange_start history_marker file_block
    archive_transcript dedupe dedupe_from has decimal decimal_from render_transcript
files_test = refl

fit_keeps_files_example : In (codes "a/b.md") (history_files_in (fitted dropping))
unfolding history_files_in trimmed trim trim_end trim_start is_space captures match_here
    strip_prefix match_group fit_history fit_over with_marker total_tokens message_tokens
    estimate_tokens recent_history_start recent_from exchange_start
fit_keeps_files_example =
    fit_keeps_files conversation dropping (fitted dropping) (codes "a/b.md") refl here

fit_keeps_recent_example :
    (fitted dropping ≡ conversation)
    ⊎ ((n : ℕ) × (marker : ModelMessage) × IsRecentStart conversation (allowance 10) n
        × (marker.role ≡ user)
        × (fitted dropping ≡ marker ∷ drop n conversation))
unfolding fit_history fit_over with_marker total_tokens message_tokens estimate_tokens
    recent_history_start recent_from exchange_start
fit_keeps_recent_example =
    fit_keeps_recent conversation dropping (fitted dropping) (ground arith) refl refl

fit_fails_without_files_example :
    (context_overflow ≡ other_error)
    ⊎ (fitted_files refusing (drop 1 conversation) (start_of refusing (drop 1 conversation)) ≡ [])
unfolding fit_history fit_over with_marker total_tokens message_tokens estimate_tokens
    recent_history_start recent_from exchange_start summarize_archived dedupe dedupe_from
    history_files_in trimmed captures match_here strip_prefix archive_transcript
fit_fails_without_files_example =
    fit_fails_without_files (drop 1 conversation) refusing context_overflow refl

recent_history_start-IsRecentStart_example :
    IsRecentStart conversation (allowance 10) (recent_history_start conversation 10 none)
recent_history_start-IsRecentStart_example =
    recent_history_start-IsRecentStart conversation 10 (ground arith)
