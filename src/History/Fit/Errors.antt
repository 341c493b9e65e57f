-- ===== src/History/Fit/Errors.antt =====
-- When fitting fails: agent/src/core/history.ts.
use codeberg.Text.{Text, is_empty, trim}
use codeberg.Base.{
  ℕ, zero, suc, ◌≡◌, ◌⊎◌, leb, List, [], ◌∷◌, refl, Bool-cases, Option-cases, inl, inr, ap, sym,
  ◌∙◌, length, take, drop,
}
use codeberg.History.Messages.{ModelMessage, total_tokens}
use codeberg.History.Fit.{
  bound_transcript, Failure, incomplete_summary, context_overflow, other_error, failed, Summarized,
  summary, refused, FitOptions, history_marker, summarize_archived, with_marker, render_transcript,
  fit_over, fit_history, without_summary, summary_input_chars,
}
use codeberg.History.Fit.Laws.{Result-cases, fitted_files, start_of}

without_summary-failed :
    (e d : Failure) (files : List Text)
    → without_summary e files ≡ failed d
    → (e ≡ d) × ((e ≡ other_error) ⊎ (files ≡ []))
without_summary-failed incomplete_summary d [] h = (cc, inr refl)
without_summary-failed incomplete_summary d (f ∷ fs) h = absurd (cc)
without_summary-failed context_overflow d [] h = (cc, inr refl)
without_summary-failed context_overflow d (f ∷ fs) h = absurd (cc)
without_summary-failed other_error d files h = (cc, inl refl)

Summarized-cases :
    (x : Summarized) → ((s : Text) × (x ≡ summary s)) ⊎ ((e : Failure) × (x ≡ refused e))
Summarized-cases (summary s) = inl (s, refl)
Summarized-cases (refused e) = inr (e, refl)

summarize_archived-failed :
    (summarize : Text → Summarized) (full : Text) (files : List Text) (d : Failure)
    → summarize_archived summarize full files ≡ failed d
    → (d ≡ other_error) ⊎ (files ≡ [])
unfolding summarize_archived
summarize_archived-failed summarize full files d e =
    elim (Summarized-cases (summarize (bound_transcript full summary_input_chars))) [
      | inr (c, refusal) ↦
          let (same, why) =
            without_summary-failed c d files (rw (refusal, summarize_archived) at e) in
          rw (sym same) why
      | inl (s, given) ↦ elim (Bool-cases (is_empty (trim s))) [
        | inl blank ↦
            let (same, why) =
              without_summary-failed incomplete_summary d files
                (rw (given, summarize_archived, blank) at e) in
            rw (sym same) why
        | inr filled ↦ let e' = rw (given, summarize_archived, filled) at e in absurd (cc)
      ]
    ]

with_marker-failed :
    (o : FitOptions) (omitted : ℕ) (full : Text) (files : List Text) (recent : List ModelMessage)
    (d : Failure)
    → with_marker o omitted full files recent ≡ failed d
    → (d ≡ other_error) ⊎ (files ≡ [])
unfolding with_marker
with_marker-failed o omitted full files recent d e = elim (Option-cases o.summarize) [
  | inl absent ↦ let e' = rw (absent, with_marker) at e in absurd (cc)
  | inr (summarize, present) ↦ elim (Result-cases (summarize_archived summarize full files)) [
    | inl (inl gone) ↦ let e' = rw (present, with_marker, gone) at e in absurd (cc)
    | inl (inr (f, bad)) ↦
        let e' = rw (present, with_marker, bad) at e in
        let same : f ≡ d = cc in
        summarize_archived-failed summarize full files d (bad ∙ ap failed same)
    | inr (s, good) ↦
        elim (Bool-cases (leb (total_tokens (history_marker s omitted files ∷ recent)) o.budget)) [
          | inl fits ↦ let e' = rw (present, with_marker, good, fits) at e in absurd (cc)
          | inr over ↦ let e' = rw (present, with_marker, good, over) at e in absurd (cc)
        ]
  ]
]

fit_over-failed :
    (o : FitOptions) (messages : List ModelMessage) (n : ℕ) (d : Failure)
    → fit_over o messages n ≡ failed d
    → (d ≡ other_error) ⊎ (fitted_files o messages n ≡ [])
unfolding fit_over with_marker
fit_over-failed o messages zero d e = absurd (cc)
fit_over-failed o messages (suc n) d e = elim (Bool-cases o.aborted_after) [
  | inl gone ↦ let e' = rw (gone, fit_over) at e in absurd (cc)
  | inr going ↦
      with_marker-failed o (length (take (suc n) messages))
        (render_transcript (take (suc n) messages)) (fitted_files o messages (suc n))
        (drop (suc n) messages) d (rw (going, fit_over) at e)
]

-- If fitHistory fails, then its error is neither an incomplete summary nor a context overflow, or
-- no history file was archived or named by the older messages.
pub fit_fails_without_files :
    (messages : List ModelMessage) (o : FitOptions) (d : Failure)
    → fit_history messages o ≡ failed d
    → (d ≡ other_error) ⊎ (fitted_files o messages (start_of o messages) ≡ [])
unfolding fit_history fit_over with_marker
fit_fails_without_files messages o d e = elim (Bool-cases o.aborted_before) [
  | inl gone ↦ let e' = rw (gone, fit_history) at e in absurd (cc)
  | inr going ↦ elim (Bool-cases (leb (total_tokens messages) o.budget)) [
    | inl fits ↦ let e' = rw (going, fit_history, fits) at e in absurd (cc)
    | inr over ↦
        fit_over-failed o messages (start_of o messages) d (rw (going, fit_history, over) at e)
  ]
]
