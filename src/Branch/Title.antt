-- ===== src/Branch/Title.antt =====
-- The title of a branch: `branchTitle`.
pub mod Laws
use codeberg.Text.{Text, codes, ends_with, is_empty, is_space, same_text, starts_with, trim}
use codeberg.Base.{
  ℕ, ◌+◌, ◌-◌, leb, ◌&&◌, ◌==◌, not, if◌then◌else◌, Bool, true, false, List, [], ◌∷◌, ◌++◌, length,
  drop,
}

abbrev pub branch_suffix : Text
branch_suffix = codes " (branch)"

-- `replace(/\s+/g, ' ')`, after a space that stands for the run or not.
unfoldable pub collapse : Bool → Text → Text
collapse in_space [] = []
collapse in_space (c ∷ t) =
    let after_space = collapse true t in
    let after_other = collapse false t in
    if is_space c then if in_space then after_space else 32 ∷ after_space else c ∷ after_other

abbrev pub or_text : Text → Text → Text
or_text [] empty = empty
or_text (c ∷ t) empty = c ∷ t

unfoldable pub branch_title : Text → Text → Text
branch_title source_title empty =
    let base = or_text (trim (collapse false source_title)) empty in
    if ends_with base branch_suffix then base else base ++ branch_suffix
