-- ===== src/Segments.antt =====
-- Text files in bounded segments: agent/src/core/context/text-stream.ts, with safeCut of limits.ts.
--
-- The file system and the decoder are arguments: a chunk is its number of bytes, whether a byte of it
-- is zero, and what the decoder gives for it.
pub mod Pieces
pub mod Laws
pub mod Stream
mod Tests
use codeberg.Base.{
  ℕ, zero, suc, ◌+◌, ◌-◌, ◌*◌, ◌==◌, ltb, leb, ◌&&◌, ◌||◌, not, min, if◌then◌else◌, Bool, true,
  false, Option, none, some, List, [], ◌∷◌, ◌++◌, length, take, drop,
}
use codeberg.Text.{Text}

pub record TextSegment : Type 0 where
  pub line : ℕ
  pub column : ℕ
  pub text : Text
  pub end : Bool

pub record ScanState : Type 0 where
  pub pending : Text
  pub line : ℕ
  pub column : ℕ

pub record Chunk : Type 0 where
  pub bytes : ℕ
  pub has_zero : Bool
  pub decoded : Text

-- The segments that are yielded, and what is left.
pub record Split : Type 0 where
  pub segments : List TextSegment
  pub state : ScanState

-- The segments that are yielded before the end or a ContextReadError.
pub record Scan : Type 0 where
  pub segments : List TextSegment
  pub failed : Bool

abbrev pub max_file_bytes : ℕ
max_file_bytes = 50 * 1024 * 1024

abbrev pub max_segment_chars : ℕ
max_segment_chars = 2000

-- `text[i]`, 0 where there is none.
abbrev pub char_at : ℕ → Text → ℕ
char_at i [] = 0
char_at zero (c ∷ t) = c
char_at (suc i) (c ∷ t) = char_at i t

-- `/[\uD800-\uDBFF]/`
abbrev pub is_high : ℕ → Bool
is_high c = leb 0xd800 c && leb c 0xdbff

unfoldable pub safe_cut : Text → ℕ → ℕ
safe_cut text size =
    let end = min (length text) size in
    if ltb 0 end && ltb end (length text) && is_high (char_at (end - 1) text) then end - 1 else end

abbrev pub past : Option ℕ → Option ℕ
past none = none
past (some i) = some (suc i)

-- `indexOf('\n')`
unfoldable pub newline_at : Text → Option ℕ
newline_at [] = none
newline_at (c ∷ t) = let later = newline_at t in if c == 10 then some 0 else past later

-- A newline that ends the segment.
abbrev pub end_of : Option ℕ → Option ℕ
end_of none = none
end_of (some i) = if leb i max_segment_chars then some i else none

-- `text.replace(/\r$/, '')`
unfoldable pub strip_return : Text → Text
strip_return [] = []
strip_return (c ∷ []) = if c == 13 then [] else c ∷ []
strip_return (c ∷ (d ∷ t)) = c ∷ strip_return (d ∷ t)

unfoldable pub cut_of : Text → ℕ
cut_of pending =
    let cut = safe_cut pending max_segment_chars in
    if char_at (cut - 1) pending == 13 then cut - 1 else cut

abbrev pub yield_first : TextSegment → Split → Split
yield_first segment split = record split { segments = segment ∷ split.segments }

abbrev pub line_of : ScanState → ℕ → TextSegment
line_of s i = record {
  line = s.line;
  column = s.column;
  text = strip_return (take i s.pending);
  end = true;
}

abbrev pub after_line : ScanState → ℕ → ScanState
after_line s i = record { pending = drop (suc i) s.pending; line = suc s.line; column = 1 }

abbrev pub piece_of : ScanState → ℕ → TextSegment
piece_of s cut = record { line = s.line; column = s.column; text = take cut s.pending; end = false }

abbrev pub after_piece : ScanState → ℕ → ScanState
after_piece s cut = record { pending = drop cut s.pending; line = s.line; column = s.column + cut }

-- The loop of `splitSegments`, for at most so many rounds.
unfoldable pub split_loop : ℕ → ScanState → Split
split_loop zero s = record { segments = []; state = s }
split_loop (suc n) s = elim (end_of (newline_at s.pending)) [
  | some i ↦ yield_first (line_of s i) (split_loop n (after_line s i))
  | none ↦
      let cut = cut_of s.pending in
      let rest = split_loop n (after_piece s cut) in
      if leb (length s.pending) max_segment_chars
      then record { segments = []; state = s }
      else yield_first (piece_of s cut) rest
]

unfoldable pub split_segments : ScanState → Text → Split
split_segments s chunk =
    split_loop (length (s.pending ++ chunk)) (record s { pending = s.pending ++ chunk })

-- From the end of the stream on.
abbrev pub last_of : ScanState → TextSegment
last_of s = record { line = s.line; column = s.column; text = s.pending; end = true }

abbrev pub ended : Split → Scan
ended split = record { segments = split.segments ++ last_of split.state ∷ []; failed = false }

abbrev pub followed : List TextSegment → Scan → Scan
followed segments scan = record scan { segments = segments ++ scan.segments }

unfoldable pub read_chunks : ScanState → ℕ → List Chunk → Text → Scan
read_chunks s bytes [] final = ended (split_segments s final)
read_chunks s bytes (chunk ∷ rest) final =
    let split = split_segments s chunk.decoded in
    let later = read_chunks split.state (bytes + chunk.bytes) rest final in
    if ltb max_file_bytes (bytes + chunk.bytes) || chunk.has_zero
    then record { segments = []; failed = true }
    else followed split.segments later

-- `final` is what the decoder gives at the end.
unfoldable pub text_segments : Bool → ℕ → List Chunk → Text → Scan
text_segments is_file size chunks final =
    if not is_file || ltb max_file_bytes size
    then record { segments = []; failed = true }
    else read_chunks (record { pending = []; line = 1; column = 1 }) 0 chunks final
