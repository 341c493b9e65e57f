-- ===== src/RequestBudget/Compact/Laws.antt =====
-- What a compacted request is.
use codeberg.Base.{
  length, ℕ, ◌+◌, ◌-◌, ◌≤◌, ◌≡◌, ◌⊎◌, inl, inr, ltb, leb, Option, none, some, List, [], ◌∷◌, arith,
  refl, Bool-cases, Option-cases, subst, max, min, ◌/◌,
}
use codeberg.Text.{Text}
use codeberg.History.Messages.{estimate_tokens}
use codeberg.RequestBudget.Estimate.{Content, Message, Request, estimate_request}
use codeberg.RequestBudget.Split.{Split, split_request}
use codeberg.RequestBudget.Split.Laws.{IsSuffix, IsAround, split_request-cases}
use codeberg.RequestBudget.Compact.{
  Summary, Compaction, compacted, checkpoint_text, archive_of, marker_of, summary_of, archived_of,
  bodies, fixed_tokens, with_marker, chosen, checkpoint_of, compacted_with, transcript_of, room_of,
  summarized_with, archived_with, compact_split, compact_request,
}

-- The split that a compaction makes.
abbrev pub split_of : Request → ℕ → Split
split_of request budget = split_request (bodies request) (budget - fixed_tokens request)

-- A marker names the file with the archived messages.
abbrev pub Names : Text → Message → Type 0
Names file marker =
    (marker ≡ marker_of (archived_of (archive_of file)))
    ⊎ ((summary : Text) × (marker ≡ marker_of (summary_of summary (archive_of file))))

-- What compaction promises, for the split that it makes.
pub record IsCompacted (canonical : Content → Text) (write_history : Text → Option Text)
    (request : Request) (budget : ℕ) (split : Split) (c : Compaction) : Type 0 where
  pub marker : Message
  pub file : Text
  pub fits : estimate_request c.request ≤ budget
  pub prompt : c.request ≡ with_marker request split marker
  pub names : Names file marker
  pub written : write_history (transcript_of canonical split.older) ≡ some file
  pub moved : 1 ≤ length split.older
  pub parted : IsSuffix (bodies request) split ⊎ IsAround (bodies request) split
  pub saved : c.checkpoint ≡ checkpoint_of request split marker

-- A compaction from its marker on.
record IsMarked (request : Request) (budget : ℕ) (split : Split) (archive : Text) (c : Compaction)
    : Type 0 where
  mark : Message
  mark_fits : estimate_request c.request ≤ budget
  mark_prompt : c.request ≡ with_marker request split mark
  mark_names :
      (mark ≡ marker_of (archived_of archive))
      ⊎ ((summary : Text) × (mark ≡ marker_of (summary_of summary archive)))
  mark_saved : c.checkpoint ≡ checkpoint_of request split mark

chosen-cases :
    (request : Request) (split : Split) (budget : ℕ) (summary archive : Text)
    → (chosen request split budget summary archive ≡ marker_of (archived_of archive))
      ⊎ ((t : Text) × (chosen request split budget summary archive
            ≡ marker_of (summary_of t archive)))
chosen-cases request split budget summary archive =
    elim (Bool-cases (
      ltb budget
        (estimate_request (with_marker request split (marker_of (summary_of summary archive)))))) [
          | inl long ↦ inl (rw long refl)
          | inr short ↦ inr (summary, rw short refl)
        ]

compacted_with-IsMarked :
    (request : Request) (split : Split) (budget : ℕ) (archive : Text) (marker : Message)
    (c : Compaction)
    → (marker ≡ marker_of (archived_of archive))
      ⊎ ((summary : Text) × (marker ≡ marker_of (summary_of summary archive)))
    → compacted_with request split budget marker ≡ compacted c
    → IsMarked request budget split archive c
unfolding compacted_with
compacted_with-IsMarked request split budget archive marker c n e =
    elim (Bool-cases (ltb budget (estimate_request (with_marker request split marker)))) [
      | inl long ↦ let e' = rw long at e in absurd (cc)
      | inr short ↦
          let e' = rw short at e in
          let same : record {
            request = with_marker request split marker;
            checkpoint = checkpoint_of request split marker;
          }
              ≡ c =
            cc in
          subst (IsMarked request budget split archive) same (record {
            mark = marker;
            mark_fits = ground arith;
            mark_prompt = refl;
            mark_names = n;
            mark_saved = refl;
          })
    ]

summarized_with-IsMarked :
    (summarize : Text → ℕ → Summary) (request : Request) (split : Split) (budget : ℕ)
    (transcript archive : Text) (c : Compaction)
    → summarized_with summarize request split budget transcript archive ≡ compacted c
    → IsMarked request budget split archive c
unfolding summarized_with
summarized_with-IsMarked summarize request split budget transcript archive c e =
    elim (Option-cases (
      checkpoint_text
        (summarize transcript (max 1 (min 2000 (room_of request split budget / 2)))))) [
          | inl failed ↦ let e' = rw (failed, summarized_with) at e in absurd (cc)
          | inr (summary, given) ↦
              compacted_with-IsMarked request split budget archive
                (chosen request split budget summary archive) c
                (chosen-cases request split budget summary archive)
                (rw (given, summarized_with) at e)
        ]

module _ (canonical : Content → Text) (write_history : Text → Option Text)
    (summarize : Text → ℕ → Summary) where
  archived_with-IsCompacted :
      (request : Request) (split : Split) (budget : ℕ) (c : Compaction) (file : Option Text)
      → write_history (transcript_of canonical split.older) ≡ file
      → 1 ≤ length split.older
      → IsSuffix (bodies request) split ⊎ IsAround (bodies request) split
      → archived_with summarize request split budget (transcript_of canonical split.older) file
        ≡ compacted c
      → IsCompacted canonical write_history request budget split c
  unfolding archived_with
  archived_with-IsCompacted request split budget c none w m p e = absurd (cc)
  archived_with-IsCompacted request split budget c (some file) w some_older p e =
      elim (Bool-cases
        (leb (room_of request split budget) (estimate_tokens (archive_of file) + 32))) [
          | inl tight ↦ let e' = rw tight at e in absurd (cc)
          | inr wide ↦
              let m =
                summarized_with-IsMarked summarize request split budget
                  (transcript_of canonical split.older) (archive_of file) c (rw wide at e) in
              record {
                marker = m.mark;
                file = file;
                fits = m.mark_fits;
                prompt = m.mark_prompt;
                names = m.mark_names;
                written = w;
                moved = some_older;
                parted = p;
                saved = m.mark_saved;
              }
        ]

  split-IsCompacted :
      (request : Request) (split : Split) (budget : ℕ) (c : Compaction) (older : List Message)
      → split.older ≡ older
      → (split.older ≡ []) ⊎ (IsSuffix (bodies request) split ⊎ IsAround (bodies request) split)
      → compact_split canonical write_history summarize request split budget older ≡ compacted c
      → IsCompacted canonical write_history request budget split c
  unfolding compact_split archived_with summarized_with compacted_with
  split-IsCompacted request split budget c [] o p e = absurd (cc)
  split-IsCompacted request split budget c (message ∷ rest) o (inl empty) e = absurd (cc)
  split-IsCompacted request split budget c (message ∷ rest) o (inr p) e =
      archived_with-IsCompacted request split budget c
        (write_history (transcript_of canonical split.older)) refl (rw o (omega arith)) p (rw o e)

  -- A request that compaction returns is estimated within the budget. Its prompt is the system
  -- messages, one user message that names the file with the archived ones, and the messages kept;
  -- every message that is not a system one is archived or kept: kept are those from a position on,
  -- or those and one user message before. At least one is archived, and the file is the one that
  -- was written with their transcript.
  pub compact_request-IsCompacted :
      (request : Request) (budget : ℕ) (c : Compaction)
      → compact_request canonical write_history summarize request budget ≡ compacted c
      → IsCompacted canonical write_history request budget (split_of request budget) c
  unfolding compact_request
  compact_request-IsCompacted request budget c e =
      split-IsCompacted request (split_of request budget) budget c (split_of request budget).older
        refl (split_request-cases (bodies request) (budget - fixed_tokens request)) e
