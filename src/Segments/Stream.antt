-- ===== src/Segments/Stream.antt =====
-- All chunks of a file.
use codeberg.Base.{
  inl, inr, ℕ, ◌+◌, ◌≤◌, ◌≡◌, ◌||◌, ltb, not, Bool, true, false, none, List, [], ◌∷◌, ◌++◌, length,
  arith, refl, sym, ap, ◌∙◌, subst, Bool-cases,
}
use mathlib.Core.List.{append_assoc}
use codeberg.Text.{Text}
use codeberg.Segments.{
  TextSegment, ScanState, Split, Chunk, max_file_bytes, max_segment_chars, newline_at,
  split_segments, last_of, ended, read_chunks, text_segments,
}
use codeberg.Segments.Pieces.{newlines, column_after, newlines-append, column_after-append}
use codeberg.Segments.Laws.{flat, AllRead, IsSplit, split_loop-IsSplit}

-- What the decoder gave in all.
abbrev pub decoded_of : List Chunk → Text → Text
decoded_of [] final = final
decoded_of (chunk ∷ rest) final = chunk.decoded ++ decoded_of rest final

-- Segments that are all of a text, from a line and a column on.
pub record IsWhole (l k : ℕ) (t : Text) (segments : List TextSegment) : Type 0 where
  pub pieces : List Text
  pub before : List TextSegment
  pub last : TextSegment
  pub all : segments ≡ before ++ last ∷ []
  pub whole : t ≡ flat pieces ++ last.text
  pub placed : AllRead l k pieces before
  pub last_ends : last.end ≡ true
  pub last_line : last.line ≡ l + newlines (flat pieces)
  pub last_column : last.column ≡ column_after k (flat pieces)
  pub short : length last.text ≤ max_segment_chars
  pub none_left : newline_at last.text ≡ none

flat-append : (ts us : List Text) → flat (ts ++ us) ≡ flat ts ++ flat us
flat-append [] us = refl
flat-append (t ∷ ts) us =
    ap (λ x. t ++ x) (flat-append ts us) ∙ sym (append_assoc t (flat ts) (flat us))

AllRead-append :
    (l k : ℕ) (ts us : List Text) (rs ss : List TextSegment)
    → AllRead l k ts rs
    → AllRead (l + newlines (flat ts)) (column_after k (flat ts)) us ss
    → AllRead l k (ts ++ us) (rs ++ ss)
unfolding newlines column_after
AllRead-append l k [] us [] ss p q = subst (λ m. AllRead m k us ss) (none_more l) q
  where
    none_more : (n : ℕ) → n + 0 ≡ n
    none_more n = omega arith
AllRead-append l k [] us (r ∷ rs) ss p q = elim p [ ]
AllRead-append l k (t ∷ ts) us [] ss p q = elim p [ ]
AllRead-append l k (t ∷ ts) us (r ∷ rs) ss (reads, at_line, at_column, p) q =
    let lines : l + newlines (flat (t ∷ ts)) ≡ (l + newlines t) + newlines (flat ts) =
      omega (arith, newlines-append t (flat ts)) in
    let q' = subst (λ m. AllRead m (column_after k (flat (t ∷ ts))) us ss) lines q in
    let q'' =
      subst (λ c. AllRead ((l + newlines t) + newlines (flat ts)) c us ss)
        (column_after-append k t (flat ts)) q' in
    (
      reads,
      at_line,
      at_column,
      AllRead-append (l + newlines t) (column_after k t) ts us rs ss p q'',
    )

split_segments-IsSplit :
    (s : ScanState) (chunk : Text)
    → IsSplit s.line s.column (s.pending ++ chunk) (split_segments s chunk)
unfolding split_segments
split_segments-IsSplit s chunk =
    split_loop-IsSplit (length (s.pending ++ chunk)) (record s { pending = s.pending ++ chunk })
      (omega arith)

ended-IsWhole :
    (l k : ℕ) (t : Text) (split : Split)
    → IsSplit l k t split
    → IsWhole l k t (ended split).segments
ended-IsWhole l k t split p = record {
  pieces = p.pieces;
  before = split.segments;
  last = last_of split.state;
  all = refl;
  whole = p.whole;
  placed = p.placed;
  last_ends = refl;
  last_line = p.line_lem;
  last_column = p.column_lem;
  short = p.short;
  none_left = p.none_left;
}

-- What follows a chunk is read from where the chunk ends.
followed-IsWhole :
    (l k : ℕ) (t u : Text) (split : Split) (segments : List TextSegment)
    → IsSplit l k t split
    → IsWhole split.state.line split.state.column (split.state.pending ++ u) segments
    → IsWhole l k (t ++ u) (split.segments ++ segments)
followed-IsWhole l k t u split segments p w =
    let first = flat p.pieces in
    let joined : first ++ flat w.pieces ≡ flat (p.pieces ++ w.pieces) =
      sym (flat-append p.pieces w.pieces) in
    let lines : (l + newlines first) + newlines (flat w.pieces)
        ≡ l + newlines (first ++ flat w.pieces) =
      omega (arith, newlines-append first (flat w.pieces)) in
    let placed = subst (λ c. AllRead split.state.line c w.pieces w.before) p.column_lem w.placed in
    record {
      pieces = p.pieces ++ w.pieces;
      before = split.segments ++ w.before;
      last = w.last;
      all =
          ap (λ x. split.segments ++ x) w.all
          ∙ sym (append_assoc split.segments w.before (w.last ∷ []));
      whole =
          ap (λ x. x ++ u) p.whole
          ∙ append_assoc first split.state.pending u
          ∙ ap (λ x. first ++ x) w.whole
          ∙ sym (append_assoc first (flat w.pieces) w.last.text)
          ∙ ap (λ x. x ++ w.last.text) joined;
      placed =
          AllRead-append l k p.pieces w.pieces split.segments w.before p.placed
            (subst (λ m. AllRead m (column_after k first) w.pieces w.before) p.line_lem placed);
      last_ends = w.last_ends;
      last_line =
          w.last_line
          ∙ ap (λ m. m + newlines (flat w.pieces)) p.line_lem
          ∙ lines
          ∙ ap (λ x. l + newlines x) joined;
      last_column =
          w.last_column
          ∙ ap (λ c. column_after c (flat w.pieces)) p.column_lem
          ∙ sym (column_after-append k first (flat w.pieces))
          ∙ ap (column_after k) joined;
      short = w.short;
      none_left = w.none_left;
    }

read_chunks-IsWhole :
    (s : ScanState) (bytes : ℕ) (chunks : List Chunk) (final : Text)
    → (read_chunks s bytes chunks final).failed ≡ false
    → IsWhole s.line s.column
        (s.pending ++ decoded_of chunks final)
        (read_chunks s bytes chunks final).segments
unfolding read_chunks
read_chunks-IsWhole s bytes [] final e =
    ended-IsWhole s.line s.column (s.pending ++ final) (split_segments s final)
      (split_segments-IsSplit s final)
read_chunks-IsWhole s bytes (chunk ∷ rest) final e =
    elim (Bool-cases (ltb max_file_bytes (bytes + chunk.bytes) || chunk.has_zero)) [
      | inl bad ↦ let e' = rw bad at e in absurd (cc)
      | inr good ↦
          let split = split_segments s chunk.decoded in
          let later =
            read_chunks-IsWhole split.state (bytes + chunk.bytes) rest final
              (rw (good, read_chunks) at e) in
          let whole =
            followed-IsWhole s.line s.column (s.pending ++ chunk.decoded) (decoded_of rest final)
              split (read_chunks split.state (bytes + chunk.bytes) rest final).segments
              (split_segments-IsSplit s chunk.decoded) later in
          let parts = append_assoc s.pending chunk.decoded (decoded_of rest final) in
          simp good (
            subst
              (λ t. IsWhole s.line s.column t (
                split.segments
                ++ (read_chunks split.state (bytes + chunk.bytes) rest final).segments))
              parts whole)
    ]

-- If the stream of segments does not fail, the segments in order are the whole decoded text,
-- however it was parted into chunks: a segment that ends a line stands for its text and a newline,
-- or a carriage return and a newline, and any other for its text, which is not empty and has no
-- newline. No text is longer than 2000 characters, each segment names the line and the column at
-- which it stands, and the last one ends and has no newline.
pub text_segments-IsWhole :
    (is_file : Bool) (size : ℕ) (chunks : List Chunk) (final : Text)
    → (text_segments is_file size chunks final).failed ≡ false
    → IsWhole 1 1 (decoded_of chunks final) (text_segments is_file size chunks final).segments
unfolding text_segments
text_segments-IsWhole is_file size chunks final e =
    elim (Bool-cases (not is_file || ltb max_file_bytes size)) [
      | inl bad ↦ let e' = rw bad at e in absurd (cc)
      | inr good ↦ simp good (
          read_chunks-IsWhole (record { pending = []; line = 1; column = 1 }) 0 chunks final
            (simp good at e))
    ]
