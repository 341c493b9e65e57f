-- ===== src/Runs/Tests.antt =====
-- A journal of two kinds of entries: the theorem of the journal at an input that meets its
-- hypotheses, and runs of it.
use codeberg.Base.{
  ℕ, ◌==◌, ◌≡◌, if◌then◌else◌, Bool, true, false, Option, none, some, [], ◌∷◌, arith, refl, All,
  ◌++◌,
}
use codeberg.Text.{Text, codes, same_text, is_empty}
use codeberg.Runs.Journal.{
  Json, Journal, done, threw, text_of, all, part, create, append, parse_all, read, split_lines,
}
use codeberg.Runs.Journal.Laws.{append_all, fresh, read-append}

abbrev on_off : Bool → Text
on_off true = codes "on"
on_off false = codes "off"

abbrev from_on_off : Text → Option Bool
from_on_off t =
    if same_text t (codes "on")
    then some true
    else if same_text t (codes "off")
    then some false
    else none

switch_read : (e : Bool) → from_on_off (on_off e) ≡ some e
switch_read true = refl
switch_read false = refl

switch_line : (e : Bool) → All (λ c. (c == 10) ≡ false) (on_off e)
switch_line true = (refl, (refl, tt))
switch_line false = (refl, (refl, (refl, tt)))

switch_filled : (e : Bool) → is_empty (on_off e) ≡ false
switch_filled true = refl
switch_filled false = refl

abbrev switches : Json Bool
switches = record {
  stringify = on_off;
  parse = from_on_off;
  parse-stringify = switch_read;
  one_line = switch_line;
  filled = switch_filled;
}

-- Two entries, in a run numbered 7.
abbrev written : Journal ℕ
written = record {
  run = some 7;
  events = some (codes "on" ++ 10 ∷ codes "off" ++ 10 ∷ []);
  bytes = 7;
}

written_test : append_all switches (true ∷ false ∷ []) (fresh switches 7) ≡ some written
unfolding append_all append create
written_test = refl

read-append_example :
    let (k, out) = read switches (append switches (part 1) true written).0 in
    (out ≡ done (7, true ∷ false ∷ []))
    × (text_of k.events ≡ text_of written.events)
    × (k.bytes ≡ written.bytes)
    × (k.run ≡ some 7)
unfolding append_all append create
read-append_example = read-append switches 7 (true ∷ false ∷ []) true 1 written refl (omega arith)

-- A write that breaks off and is followed by another leaves a line that is no entry.
glued_test :
    (read switches (append switches all true (append switches (part 1) true written).0).0).1 ≡ threw
unfolding read append split_lines parse_all
glued_test = refl
