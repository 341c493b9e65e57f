-- ===== src/Runs/Journal.antt =====
-- The journal of a run: agent/src/web/runs/journal.ts.
--
-- A file is the list of its bytes. JSON is an interface: an entry is written as bytes without a
-- newline, and reading gives it back. `append` runs its calls one after the other, so each is a
-- step of its own; its write may break off in between and throw.
pub mod Laws
use codeberg.Base.{
  ℕ, ◌+◌, ◌-◌, ◌≡◌, ◌==◌, ltb, leb, if◌then◌else◌, Bool, true, false, Option, none, some, List, [],
  ◌∷◌, ◌++◌, length, take, All,
}
use codeberg.Text.{is_empty}

abbrev pub Bytes : Type 0
Bytes = List ℕ

-- `JSON.stringify` and `JSON.parse` on journal entries.
pub record Json (Entry : Type 0) : Type 0 where
  pub stringify : Entry → Bytes
  pub parse : Bytes → Option Entry
  pub parse-stringify : (e : Entry) → parse (stringify e) ≡ some e
  pub one_line : (e : Entry) → All (λ c. (c == 10) ≡ false) (stringify e)
  pub filled : (e : Entry) → is_empty (stringify e) ≡ false

abbrev pub max_journal_bytes : ℕ
max_journal_bytes = 33554432

-- The directory with `run.json` and `events.jsonl`, and the field `bytes`.
pub record Journal (Record : Type 0) : Type 0 where
  pub run : Option Record
  pub events : Option Bytes
  pub bytes : ℕ

pub data Outcome (A : Type 0) : Type 0 where
  done : A → Outcome A
  missing threw : Outcome A

abbrev pub text_of : Option Bytes → Bytes
text_of none = []
text_of (some text) = text

-- `split('\n')` after the line read so far: the lines before the last, and that.
unfoldable pub split_lines : Bytes → Bytes → List Bytes × Bytes
split_lines line [] = ([], line)
split_lines line (c ∷ t) =
    let (lines, tail) = split_lines [] t in
    if c == 10 then (line ∷ lines, tail) else split_lines (line ++ c ∷ []) t

-- How much of a line a write puts down before it returns or throws.
pub data Written : Type 0 where
  all : Written
  part : ℕ → Written

module _ {Entry : Type 0} (json : Json Entry) where
  abbrev pub line_of : Entry → Bytes
  line_of e = json.stringify e ++ 10 ∷ []

  -- `lines.filter(Boolean).map(JSON.parse)`
  unfoldable pub parse_all : List Bytes → Option (List Entry)
  parse_all [] = some []
  parse_all (line ∷ lines) =
      let rest = parse_all lines in
      if is_empty line then rest else (elim (json.parse line) [
        | none ↦ none
        | some e ↦ (elim rest [ none ↦ none | some es ↦ some (e ∷ es) ])
      ])

module _ {Record : Type 0} where
  abbrev pub put : Bytes → Journal Record → Journal Record
  put more j = record j { events = some (text_of j.events ++ more) }

  abbrev pub truncated : Bytes → Bytes → Journal Record → Journal Record
  truncated text tail j =
      let kept = length text - length tail in
      if is_empty tail
      then record j { bytes = length text }
      else record j { bytes = kept; events = some (take kept text) }

  unfoldable pub create : Record → Journal Record → Journal Record
  create run j = record j { run = some run }

  unfoldable pub discard : Journal Record → Journal Record
  discard j = record j { run = none; events = none }

module _ {Record Entry : Type 0} (json : Json Entry) where
  -- The state after it, and whether it returned.
  unfoldable pub append : Written → Entry → Journal Record → Journal Record × Bool
  append written e j =
      if ltb max_journal_bytes (j.bytes + length (line_of json e))
      then (j, false)
      else (elim written [
        | all ↦
            (record (put (line_of json e) j) { bytes = j.bytes + length (line_of json e) }, true)
        | part n ↦ (put (take n (line_of json e)) j, false)
      ])

  unfoldable pub read : Journal Record → Journal Record × Outcome (Record × List Entry)
  read j = elim j.run [
    | none ↦ (j, missing)
    | some run ↦
        let text = text_of j.events in
        let (lines, tail) = split_lines [] text in
        (
          truncated text tail j,
          elim (parse_all json lines) [ none ↦ threw | some es ↦ done (run, es) ],
        )
  ]
