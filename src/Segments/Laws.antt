-- ===== src/Segments/Laws.antt =====
-- Segments in order are the text, with the positions at which they stand.
use codeberg.Base.{
  ℕ, zero, suc, ◌+◌, ◌≤◌, ◌<◌, ◌≡◌, ◌⊎◌, inl, inr, leb, true, Option, none, some, List, [], ◌∷◌,
  ◌++◌, length, take, drop, arith, refl, sym, ap, ◌∙◌, subst, Bool-cases, take-append-drop,
  length-append, length-take, length-drop,
}
use mathlib.Core.List.{append_assoc}
use codeberg.Text.{Text}
use codeberg.Segments.{
  TextSegment, ScanState, Split, max_segment_chars, newline_at, end_of, strip_return, cut_of,
  yield_first, line_of, after_line, piece_of, after_piece, split_loop,
}
use codeberg.Segments.Pieces.{
  Reads, line, line_return, piece, newline_found, newline_below, strip-cases, cut-bounds,
  none_up_to, none_in_part, newlines, column_after, newlines-append, column_after-append,
  newlines-none, column_none,
}

abbrev pub flat : List Text → Text
flat [] = []
flat (t ∷ ts) = t ++ flat ts

-- Texts that segments stand for, from a line and a column on.
abbrev pub AllRead : ℕ → ℕ → List Text → List TextSegment → Type 0
AllRead l k [] [] = Unit {0}
AllRead l k (t ∷ ts) (s ∷ ss) =
    Reads t s × (s.line ≡ l) × (s.column ≡ k) × AllRead (l + newlines t) (column_after k t) ts ss
AllRead l k _ _ = ⊥

pub record IsSplit (l k : ℕ) (t : Text) (split : Split) : Type 0 where
  pub pieces : List Text
  pub whole : t ≡ flat pieces ++ split.state.pending
  pub placed : AllRead l k pieces split.segments
  pub line_lem : split.state.line ≡ l + newlines (flat pieces)
  pub column_lem : split.state.column ≡ column_after k (flat pieces)
  pub short : length split.state.pending ≤ max_segment_chars
  pub none_left : newline_at split.state.pending ≡ none

IsSplit-nothing :
    (s : ScanState)
    → length s.pending ≤ max_segment_chars
    → newline_at s.pending ≡ none
    → IsSplit s.line s.column s.pending (record { segments = []; state = s })
unfolding newlines column_after
IsSplit-nothing s h e = record {
  pieces = [];
  whole = refl;
  placed = tt;
  line_lem = omega arith;
  column_lem = refl;
  short = h;
  none_left = e;
}

-- A segment before a split.
IsSplit-cons :
    (l k : ℕ) (raw t : Text) (segment : TextSegment) (split : Split)
    → Reads raw segment
    → segment.line ≡ l
    → segment.column ≡ k
    → IsSplit (l + newlines raw) (column_after k raw) t split
    → IsSplit l k (raw ++ t) (yield_first segment split)
IsSplit-cons l k raw t segment split r el ek p = record {
  pieces = raw ∷ p.pieces;
  whole = ap (λ x. raw ++ x) p.whole ∙ sym (append_assoc raw (flat p.pieces) split.state.pending);
  placed = (r, el, ek, p.placed);
  line_lem = omega (arith, p.line_lem, newlines-append raw (flat p.pieces));
  column_lem = p.column_lem ∙ sym (column_after-append k raw (flat p.pieces));
  short = p.short;
  none_left = p.none_left;
}

-- The text of a line, and where the next one starts.
record ReadsLine (s : ScanState) (i : ℕ) (raw : Text) : Type 0 where
  reads : Reads raw (line_of s i)
  parted : s.pending ≡ raw ++ drop (suc i) s.pending
  next_line : suc s.line ≡ s.line + newlines raw
  next_column : 1 ≡ column_after s.column raw

line-position :
    (k : ℕ) (t : Text)
    → newline_at t ≡ none
    → (newlines (t ++ 10 ∷ []) ≡ 1) × (column_after k (t ++ 10 ∷ []) ≡ 1)
unfolding newlines column_after
line-position k t e = (
  newlines-append t (10 ∷ []) ∙ ap (λ n. n + 1) (newlines-none t e),
  column_after-append k t (10 ∷ []),
)

line_of-ReadsLine :
    (s : ScanState) (i : ℕ)
    → newline_at s.pending ≡ some i
    → i ≤ max_segment_chars
    → ReadsLine s i (take i s.pending ++ 10 ∷ [])
line_of-ReadsLine s i e h =
    let none_yet = none_up_to i s.pending e i (omega arith) in
    let (lines, column) = line-position s.column (take i s.pending) none_yet in
    let front = length-take i s.pending in
    record {
      reads = elim (strip-cases (take i s.pending)) [
        | inl same ↦
            subst
              (λ (t : Text).
                Reads (take i s.pending ++ 10 ∷ [])
                  (record { line = s.line; column = s.column; text = t; end = true }))
              (sym same) (line (omega arith))
        | inr stripped ↦
            let size = ap length stripped in
            let sizes = length-append (strip_return (take i s.pending)) (13 ∷ []) in
            let raw : take i s.pending ++ 10 ∷ []
                ≡ strip_return (take i s.pending) ++ 13 ∷ (10 ∷ []) =
              ap (λ t. t ++ 10 ∷ []) stripped
              ∙ append_assoc (strip_return (take i s.pending)) (13 ∷ []) (10 ∷ []) in
            subst (λ t. Reads t (line_of s i)) (sym raw) (line_return (omega arith))
      ];
      parted =
          newline_found s.pending i e
          ∙ sym (append_assoc (take i s.pending) (10 ∷ []) (drop (suc i) s.pending));
      next_line = omega (arith, lines);
      next_column = sym column;
    }

-- The beginning of a line that is too long.
record ReadsPiece (s : ScanState) (cut : ℕ) : Type 0 where
  piece_reads : Reads (take cut s.pending) (piece_of s cut)
  piece_parted : s.pending ≡ take cut s.pending ++ drop cut s.pending
  same_line : s.line ≡ s.line + newlines (take cut s.pending)
  later_column : s.column + cut ≡ column_after s.column (take cut s.pending)

piece_of-ReadsPiece :
    (s : ScanState) (cut : ℕ)
    → newline_at (take cut s.pending) ≡ none
    → 0 < cut
    → cut ≤ max_segment_chars
    → cut < length s.pending
    → ReadsPiece s cut
piece_of-ReadsPiece s cut e p h long =
    let front = length-take cut s.pending in
    record {
      piece_reads = piece (omega arith) (omega arith) e;
      piece_parted = sym (take-append-drop cut s.pending);
      same_line = omega (arith, newlines-none (take cut s.pending) e);
      later_column = omega (arith, column_none s.column (take cut s.pending) e);
    }

end_of-cases :
    (o : Option ℕ)
    → ((i : ℕ) × (o ≡ some i) × (end_of o ≡ some i) × (i ≤ max_segment_chars))
      ⊎ ((end_of o ≡ none) × ((o ≡ none) ⊎ ((i : ℕ) × (o ≡ some i) × (max_segment_chars < i))))
end_of-cases none = inr (refl, inl refl)
end_of-cases (some i) = elim (Bool-cases (leb i max_segment_chars)) [
  | inl near ↦ inl (i, refl, rw near refl, ground arith)
  | inr far ↦ inr (rw far refl, inr (i, refl, ground arith))
]

none_within :
    (t : Text) (n : ℕ)
    → n ≤ max_segment_chars
    → (newline_at t ≡ none) ⊎ ((i : ℕ) × (newline_at t ≡ some i) × (max_segment_chars < i))
    → newline_at (take n t) ≡ none
none_within t n h (inl missing) = none_in_part n t missing
none_within t n h (inr (i, found, far)) = none_up_to i t found n (omega arith)

none_at_all :
    (t : Text)
    → length t ≤ max_segment_chars
    → (newline_at t ≡ none) ⊎ ((i : ℕ) × (newline_at t ≡ some i) × (max_segment_chars < i))
    → newline_at t ≡ none
none_at_all t h (inl missing) = missing
none_at_all t h (inr (i, found, far)) = absurd (omega (arith, newline_below t i found))

-- As many rounds as there are characters are enough.
pub split_loop-IsSplit :
    (n : ℕ) (s : ScanState)
    → length s.pending ≤ n
    → IsSplit s.line s.column s.pending (split_loop n s)
unfolding split_loop newline_at
split_loop-IsSplit zero s h = IsSplit-nothing s (omega arith) (empty s.pending (omega arith))
  where
    empty : (t : Text) → length t ≤ 0 → newline_at t ≡ none
    empty [] e = refl
    empty (c ∷ t) e = absurd (omega arith)
split_loop-IsSplit (suc n) s h = elim (end_of-cases (newline_at s.pending)) [
  | inl (i, found, ends, near) ↦
      let k = line_of-ReadsLine s i found near in
      let raw = take i s.pending ++ 10 ∷ [] in
      let below = newline_below s.pending i found in
      let left = length-drop (suc i) s.pending in
      let later = split_loop-IsSplit n (after_line s i) (omega arith) in
      let placed : IsSplit (s.line + newlines raw) (column_after s.column raw)
          (drop (suc i) s.pending) (split_loop n (after_line s i)) =
        subst
          (λ c.
            IsSplit (s.line + newlines raw) c (drop (suc i) s.pending)
              (split_loop n (after_line s i)))
          k.next_column
          (subst (λ l. IsSplit l 1 (drop (suc i) s.pending) (split_loop n (after_line s i)))
            k.next_line later) in
      rw (ends, split_loop)
        (subst
          (λ t.
            IsSplit s.line s.column t (yield_first (line_of s i) (split_loop n (after_line s i))))
          (sym k.parted)
          (IsSplit-cons s.line s.column raw (drop (suc i) s.pending) (line_of s i)
            (split_loop n (after_line s i)) k.reads refl refl placed))
  | inr (no_end, missing) ↦ elim (Bool-cases (leb (length s.pending) max_segment_chars)) [
    | inl short ↦
        rw (no_end, split_loop, short)
          (IsSplit-nothing s (ground arith) (none_at_all s.pending (ground arith) missing))
    | inr long ↦
        let (positive, bounded) = cut-bounds s.pending (ground arith) in
        let cut = cut_of s.pending in
        let k =
          piece_of-ReadsPiece s cut (none_within s.pending cut bounded missing) positive bounded
            (ground arith) in
        let raw = take cut s.pending in
        let left = length-drop cut s.pending in
        let later = split_loop-IsSplit n (after_piece s cut) (omega arith) in
        let placed : IsSplit (s.line + newlines raw) (column_after s.column raw)
            (drop cut s.pending) (split_loop n (after_piece s cut)) =
          subst
            (λ c.
              IsSplit (s.line + newlines raw) c (drop cut s.pending)
                (split_loop n (after_piece s cut)))
            k.later_column
            (subst
              (λ l.
                IsSplit l (s.column + cut) (drop cut s.pending) (split_loop n (after_piece s cut)))
              k.same_line later) in
        rw (no_end, split_loop, long)
          (subst
            (λ t.
              IsSplit s.line s.column t
                (yield_first (piece_of s cut) (split_loop n (after_piece s cut))))
            (sym k.piece_parted)
            (IsSplit-cons s.line s.column raw (drop cut s.pending) (piece_of s cut)
              (split_loop n (after_piece s cut)) k.piece_reads refl refl placed))
  ]
]
