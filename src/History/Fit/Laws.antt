-- ===== src/History/Fit/Laws.antt =====
-- What a fitted history keeps, and when fitting fails.
use codeberg.Text.{Text}
use codeberg.Base.{
  ℕ, zero, suc, ◌+◌, ◌-◌, ◌/◌, ◌≤◌, ◌<◌, ◌≡◌, ◌≢◌, ◌⊎◌, leb, min, Option, none, some, List, [], ◌∷◌,
  ◌++◌, In, In-append_left, arith, refl, Bool-cases, Option-cases, inl, inr, ◌∙◌, length, take,
  drop, length-take, length-drop, length-append, take-append-drop,
}
use codeberg.History.Messages.{user, ModelMessage, total_tokens}
use codeberg.History.Files.{history_files_in, dedupe}
use codeberg.History.Files.Laws.{
  history_files_in-IsPath, history_files_in_head, history_files_in_tail, history_files_in-append,
  dedupe-In,
}
use codeberg.History.Recent.{recent_history_start, allowance}
use codeberg.History.Recent.Laws.{IsRecentStart, recent_history_start-IsRecentStart}
use codeberg.History.Fit.{
  note, tail_of, bound_transcript, Failure, Result, ok, aborted, failed, FitOptions, history_marker,
  summarize_archived, archive_transcript, appended, with_marker, render_transcript, fit_over,
  fit_history,
}
use codeberg.History.Fit.Marker.{marker-In}

bounded_length :
    (n limit k : ℕ)
    → limit < n
    → min limit (
        min (limit - k - min 24000 ((limit - k) / 3)) n
        + (k + (n - (n - min 24000 ((limit - k) / 3)))))
      ≡ limit
bounded_length n limit k over = ground arith

length-bounded :
    (full : Text) (limit : ℕ) (between : Text) (head_chars tail_chars : ℕ)
    → length (take limit (take head_chars full ++ (between ++ tail_of tail_chars full)))
      ≡ min limit (
          min head_chars (length full)
          + (length between + (length full - (length full - tail_chars))))
length-bounded full limit between head_chars tail_chars = rw (
  length-take limit (take head_chars full ++ (between ++ tail_of tail_chars full)),
  length-append (take head_chars full) (between ++ tail_of tail_chars full),
  length-append between (tail_of tail_chars full),
  length-take head_chars full,
  length-drop (length full - tail_chars) full,
)

-- boundTranscript returns a text as long as the given one up to the limit, and a text within the
-- limit unchanged.
pub length-bound_transcript :
    (full : Text) (limit : ℕ)
    → (length (bound_transcript full limit) ≡ min (length full) limit)
      × (length full ≤ limit → bound_transcript full limit ≡ full)
unfolding bound_transcript
length-bound_transcript full limit = elim (Bool-cases (leb (length full) limit)) [
  | inl fits ↦ (rw fits (ground arith), λ le. rw fits)
  | inr over ↦ (
    rw over (
        length-bounded full limit note _ _
        ∙ (bounded_length (length full) limit (length note) (ground arith) ∙ (ground arith))),
    λ le. ground arith,
  )
]

pub Result-cases {ℓ} :
    {A : Type ℓ} (x : Result A)
    → ((x ≡ aborted) ⊎ ((f : Failure) × (x ≡ failed f))) ⊎ ((a : A) × (x ≡ ok a))
Result-cases (ok a) = inr (a, refl)
Result-cases aborted = inl (inl refl)
Result-cases (failed f) = inl (inr (f, refl))

-- What the marker is, when fitting gives messages.
with_marker-Shape :
    (o : FitOptions) (omitted : ℕ) (full : Text) (files : List Text) (recent r : List ModelMessage)
    → with_marker o omitted full files recent ≡ ok r
    → (s : Option Text) × (r ≡ history_marker s omitted files ∷ recent)
unfolding with_marker
with_marker-Shape o omitted full files recent r e = elim (Option-cases o.summarize) [
  | inl absent ↦ let e' = rw (absent, with_marker) at e in (none, cc)
  | inr (summarize, present) ↦ elim (Result-cases (summarize_archived summarize full files)) [
    | inl (inl gone) ↦ let e' = rw (present, with_marker, gone) at e in absurd (cc)
    | inl (inr (f, bad)) ↦ let e' = rw (present, with_marker, bad) at e in absurd (cc)
    | inr (s, good) ↦
        elim (Bool-cases (leb (total_tokens (history_marker s omitted files ∷ recent)) o.budget)) [
          | inl fits ↦ let e' = rw (present, with_marker, good, fits) at e in (s, cc)
          | inr over ↦ let e' = rw (present, with_marker, good, over) at e in (none, cc)
        ]
  ]
]

-- The files that a marker names when the history is cut at an index.
abbrev pub fitted_files : FitOptions → List ModelMessage → ℕ → List Text
fitted_files o messages n = dedupe (
    history_files_in (take n messages)
    ++ appended (archive_transcript o.archive (render_transcript (take n messages))))

pub fit_over-Marked :
    (o : FitOptions) (messages : List ModelMessage) (n : ℕ) (r : List ModelMessage)
    → 1 ≤ n
    → fit_over o messages n ≡ ok r
    → (s : Option Text) × (r
        ≡ history_marker s (length (take n messages)) (fitted_files o messages n) ∷ drop n messages)
unfolding fit_over with_marker
fit_over-Marked o messages zero r h e = absurd (omega arith)
fit_over-Marked o messages (suc n) r h e = elim (Bool-cases o.aborted_after) [
  | inl gone ↦ let e' = rw (gone, fit_over) at e in absurd (cc)
  | inr going ↦
      with_marker-Shape o (length (take (suc n) messages))
        (render_transcript (take (suc n) messages)) (fitted_files o messages (suc n))
        (drop (suc n) messages) r (rw (going, fit_over) at e)
]

fit_over-Shape :
    (o : FitOptions) (messages : List ModelMessage) (n : ℕ) (r : List ModelMessage)
    → fit_over o messages n ≡ ok r
    → (r ≡ messages)
      ⊎ ((s : Option Text) × (r
            ≡ history_marker s (length (take n messages)) (fitted_files o messages n)
              ∷ drop n messages))
unfolding fit_over
fit_over-Shape o messages zero r e = inl cc
fit_over-Shape o messages (suc n) r e = inr (fit_over-Marked o messages (suc n) r (omega arith) e)

abbrev pub start_of : FitOptions → List ModelMessage → ℕ
start_of o messages = recent_history_start messages o.budget o.keep_recent

pub fit_history-Shape :
    (messages : List ModelMessage) (o : FitOptions) (r : List ModelMessage)
    → fit_history messages o ≡ ok r
    → (r ≡ messages)
      ⊎ ((s : Option Text) × (r
            ≡ history_marker s
                (length (take (start_of o messages) messages))
                (fitted_files o messages (start_of o messages))
              ∷ drop (start_of o messages) messages))
unfolding fit_history fit_over with_marker
fit_history-Shape messages o r e = elim (Bool-cases o.aborted_before) [
  | inl gone ↦ let e' = rw (gone, fit_history) at e in absurd (cc)
  | inr going ↦ elim (Bool-cases (leb (total_tokens messages) o.budget)) [
    | inl fits ↦ let e' = rw (going, fit_history, fits) at e in inl cc
    | inr over ↦
        fit_over-Shape o messages (start_of o messages) r (rw (going, fit_history, over) at e)
  ]
]

marked-In :
    (o : FitOptions) (messages : List ModelMessage) (n omitted : ℕ) (s : Option Text) {f : Text}
    → In f (history_files_in (take n messages ++ drop n messages))
    → In f
        (history_files_in (history_marker s omitted (fitted_files o messages n) ∷ drop n messages))
marked-In o messages n omitted s {f} i =
    elim (history_files_in-append (take n messages) (drop n messages) i) [
      | inl old ↦
          let p = history_files_in-IsPath (take n messages) old in
          history_files_in_head (history_marker s omitted (fitted_files o messages n))
            (drop n messages) p
            (marker-In s omitted (fitted_files o messages n) p (
              dedupe-In
                (history_files_in (take n messages)
                  ++ appended (archive_transcript o.archive (render_transcript (take n messages))))
                (In-append_left
                  (appended (archive_transcript o.archive (render_transcript (take n messages))))
                  old)))
      | inr recent ↦
          history_files_in_tail (history_marker s omitted (fitted_files o messages n))
            (drop n messages) recent
    ]

-- If fitHistory returns messages, every history file that a tag of the given messages names is
-- named by a tag of the returned ones.
pub fit_keeps_files :
    (messages : List ModelMessage) (o : FitOptions) (r : List ModelMessage) (f : Text)
    → fit_history messages o ≡ ok r
    → In f (history_files_in messages)
    → In f (history_files_in r)
fit_keeps_files messages o r f e i = elim (fit_history-Shape messages o r e) [
  | inl same ↦ rw same i
  | inr (s, marked) ↦ rw marked (
      marked-In o messages (start_of o messages) (length (take (start_of o messages) messages)) s
        (rw (take-append-drop (start_of o messages) messages) i))
]

-- With no keepRecent and a chat that is not empty, fitHistory returns, if it returns messages,
-- either the given ones or one user message followed by the recent part word for word, and that
-- part is the one recentHistoryStart promises.
pub fit_keeps_recent :
    (messages : List ModelMessage) (o : FitOptions) (r : List ModelMessage)
    → messages ≢ []
    → o.keep_recent ≡ none
    → fit_history messages o ≡ ok r
    → (r ≡ messages)
      ⊎ ((n : ℕ) × (marker : ModelMessage) × IsRecentStart messages (allowance o.budget) n
          × (marker.role ≡ user)
          × (r ≡ marker ∷ drop n messages))
unfolding history_marker
fit_keeps_recent messages o r filled default e = elim (fit_history-Shape messages o r e) [
  | inl same ↦ inl same
  | inr (none, marked) ↦ inr (
    start_of o messages,
    history_marker none (length (take (start_of o messages) messages))
        (fitted_files o messages (start_of o messages)),
    (rw default (recent_history_start-IsRecentStart messages o.budget filled)),
    refl,
    marked,
  )
  | inr (some s, marked) ↦ inr (
    start_of o messages,
    history_marker (some s) (length (take (start_of o messages) messages))
        (fitted_files o messages (start_of o messages)),
    (rw default (recent_history_start-IsRecentStart messages o.budget filled)),
    refl,
    marked,
  )
]
