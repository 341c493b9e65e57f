-- ===== src/Segments/Tests.antt =====
-- A file of two chunks: the theorem at it, and a run.
use codeberg.Base.{◌≡◌, true, false, refl, List, [], ◌∷◌, ◌++◌}
use codeberg.Text.{codes}
use codeberg.Segments.{
  TextSegment, Chunk, text_segments, read_chunks, split_segments, split_loop, newline_at,
  strip_return,
}
use codeberg.Segments.Stream.{IsWhole, decoded_of, text_segments-IsWhole}

abbrev two_chunks : List Chunk
two_chunks =
    record { bytes = 8; has_zero = false; decoded = codes "first" ++ 13 ∷ [] }
    ∷ record { bytes = 8; has_zero = false; decoded = 10 ∷ codes "second" }
    ∷ []

abbrev scanned : List TextSegment
scanned = (text_segments true 16 two_chunks []).segments

scanned_test :
    scanned
    ≡ record { line = 1; column = 1; text = codes "first"; end = true }
      ∷ record { line = 2; column = 1; text = codes "second"; end = true }
      ∷ []
unfolding text_segments read_chunks split_segments split_loop newline_at strip_return
scanned_test = refl

text_segments-IsWhole_example : IsWhole 1 1 (decoded_of two_chunks []) scanned
unfolding text_segments read_chunks split_segments split_loop newline_at strip_return
text_segments-IsWhole_example = text_segments-IsWhole true 16 two_chunks [] refl
