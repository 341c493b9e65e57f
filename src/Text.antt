-- ===== src/Text.antt =====
-- Texts as JavaScript has them: lists of UTF-16 code units, with the string methods that the
-- components share.
pub mod Trim
pub mod Same
use Prim.Native.Char.{code}
use Prim.Native.String.{String}
use codeberg.Base.{
  ℕ, ◌+◌, ◌-◌, ◌==◌, leb, ◌&&◌, ◌||◌, not, if◌then◌else◌, Bool, true, false, Option, none, some,
  List, [], ◌∷◌, ◌++◌, length, drop,
}

abbrev pub Text : Type 0
Text = List ℕ

-- A literal of the source, all of whose characters are ASCII.
abbrev pub codes : String → Text
codes String.[] = []
codes (String.◌∷◌ c s) = code c ∷ codes s

-- The code units that `trim` removes.
unfoldable pub is_space : ℕ → Bool
is_space c =
    (leb 9 c && leb c 13)
    || c == 32
    || c == 160
    || c == 0x1680
    || (leb 0x2000 c && leb c 0x200a)
    || c == 0x2028
    || c == 0x2029
    || c == 0x202f
    || c == 0x205f
    || c == 0x3000
    || c == 0xfeff

abbrev pub is_empty : Text → Bool
is_empty [] = true
is_empty (c ∷ t) = false

unfoldable pub trim_start : Text → Text
trim_start [] = []
trim_start (c ∷ t) = if is_space c then trim_start t else c ∷ t

unfoldable pub trim_end : Text → Text
trim_end [] = []
trim_end (c ∷ t) = let rest = trim_end t in if is_space c && is_empty rest then [] else c ∷ rest

unfoldable pub trim : Text → Text
trim t = trim_end (trim_start t)

abbrev pub same_text : Text → Text → Bool
same_text [] [] = true
same_text (a ∷ s) (b ∷ t) = a == b && same_text s t
same_text _ _ = false

unfoldable pub strip_prefix : Text → Text → Option Text
strip_prefix [] t = some t
strip_prefix (p ∷ ps) [] = none
strip_prefix (p ∷ ps) (c ∷ t) = if p == c then strip_prefix ps t else none

unfoldable pub ends_with : Text → Text → Bool
ends_with t suffix =
    leb (length suffix) (length t) && same_text (drop (length t - length suffix) t) suffix

abbrev pub starts_with : Text → Text → Bool
starts_with t prefix = elim (strip_prefix prefix t) [ none ↦ false | some rest ↦ true ]
