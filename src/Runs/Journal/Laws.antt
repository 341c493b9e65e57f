-- ===== src/Runs/Journal/Laws.antt =====
-- What a crash leaves is read as what was acknowledged.
use mathlib.Core.List.{append_assoc, append-nil}
use codeberg.Base.{
  ℕ, zero, suc, ◌+◌, ◌-◌, ◌≤◌, ◌≡◌, ◌==◌, ltb, if◌then◌else◌, true, false, Option, none, some, List,
  [], ◌∷◌, ◌++◌, map, length, length-append, take, All, arith, refl, subst, ap, sym, ◌∙◌,
  Bool-cases, inl, inr,
}
use codeberg.Runs.Journal.{
  Bytes, Json, max_journal_bytes, Journal, done, text_of, split_lines, all, part, line_of, create,
  append, parse_all, read,
}

abbrev pub HasNoNewline : Bytes → Type 0
HasNoNewline t = All (λ c. (c == 10) ≡ false) t

split_lines_end : (line t : Bytes) → HasNoNewline t → split_lines line t ≡ ([], line ++ t)
unfolding split_lines
split_lines_end line [] h = rw (append-nil line)
split_lines_end line (c ∷ t) h =
    rw (h.0, split_lines)
      (split_lines_end (line ++ c ∷ []) t h.1
        ∙ ap (λ (x : Bytes). ([], x)) (append_assoc line (c ∷ []) t))

split_lines_next :
    (line s rest : Bytes)
    → HasNoNewline s
    → split_lines line (s ++ 10 ∷ rest)
      ≡ ((line ++ s) ∷ (split_lines [] rest).0, (split_lines [] rest).1)
unfolding split_lines
split_lines_next line [] rest h = rw (append-nil line)
split_lines_next line (c ∷ s) rest h =
    rw (h.0, split_lines)
      (split_lines_next (line ++ c ∷ []) s rest h.1
        ∙ ap (λ (x : Bytes). (x ∷ (split_lines [] rest).0, (split_lines [] rest).1))
            (append_assoc line (c ∷ []) s))

module _ {Entry : Type 0} (json : Json Entry) where
  abbrev pub file_of : List Entry → Bytes
  file_of [] = []
  file_of (e ∷ es) = line_of json e ++ file_of es

  split_lines-file_of :
      (es : List Entry) (t : Bytes)
      → HasNoNewline t
      → split_lines [] (file_of es ++ t) ≡ (map json.stringify es, t)
  split_lines-file_of [] t h = split_lines_end [] t h
  split_lines-file_of (e ∷ es) t h =
      rw
        (
          append_assoc (line_of json e) (file_of es) t,
          append_assoc (json.stringify e) (10 ∷ []) (file_of es ++ t),
        )
        (split_lines_next [] (json.stringify e) (file_of es ++ t) (json.one_line e)
          ∙ rw (split_lines-file_of es t h))

  parse_all-stringify : (es : List Entry) → parse_all json (map json.stringify es) ≡ some es
  unfolding parse_all
  parse_all-stringify [] = refl
  parse_all-stringify (e ∷ es) =
      rw (json.filled e, parse_all, json.parse-stringify e, parse_all-stringify es)

  kept_length :
      (es : List Entry) (tail : Bytes)
      → length (file_of es ++ tail) - length tail ≡ length (file_of es)
  kept_length es tail = omega (arith, length-append {0} (file_of es) tail)

  HasNoNewline-take : (n : ℕ) (t : Bytes) → HasNoNewline t → HasNoNewline (take n t)
  HasNoNewline-take zero t h = tt
  HasNoNewline-take (suc n) [] h = tt
  HasNoNewline-take (suc n) (c ∷ t) h = (h.0, HasNoNewline-take n t h.1)

  take_left : (n : ℕ) (s t : Bytes) → n ≤ length s → take n (s ++ t) ≡ take n s
  take_left zero s t h = refl
  take_left (suc n) [] t h = absurd (omega arith)
  take_left (suc n) (c ∷ s) t h = ap (λ (x : Bytes). c ∷ x) (take_left n s t (omega arith))

  take_all : (s t : Bytes) (n : ℕ) → n ≡ length s → take n (s ++ t) ≡ s
  take_all [] t zero h = refl
  take_all [] t (suc n) h = absurd (omega arith)
  take_all (c ∷ s) t zero h = absurd (omega arith)
  take_all (c ∷ s) t (suc n) h = ap (λ (x : Bytes). c ∷ x) (take_all s t n (omega arith))

  torn_line :
      (e : Entry) (n : ℕ) → n ≤ length (json.stringify e) → HasNoNewline (take n (line_of json e))
  torn_line e n le =
      rw (take_left n (json.stringify e) (10 ∷ []) le)
        (HasNoNewline-take n (json.stringify e) (json.one_line e))

module _ {Record Entry : Type 0} (json : Json Entry) where
  -- Appends that all return, or `none`.
  unfoldable pub append_all : List Entry → Journal Record → Option (Journal Record)
  append_all [] j = some j
  append_all (e ∷ es) j =
      let rest = append_all es (append json all e j).0 in
      if (append json all e j).1 then rest else none

  -- These bytes came to the events, and nothing else changed.
  record Adds (more : Bytes) (before j : Journal Record) : Type 0 where
    same_run : j.run ≡ before.run
    text : text_of j.events ≡ text_of before.events ++ more
    counted : j.bytes ≡ before.bytes + length more

  Adds-trans : {m n : Bytes} {i j k : Journal Record} → Adds m i j → Adds n j k → Adds (m ++ n) i k
  Adds-trans {m} {n} {i} {j} {k} a b = record {
    same_run = b.same_run ∙ a.same_run;
    text = b.text ∙ (ap (λ (x : Bytes). x ++ n) a.text ∙ append_assoc (text_of i.events) m n);
    counted = omega (arith, a.counted, b.counted, length-append {0} m n);
  }

  append-Adds :
      (e : Entry) (j : Journal Record)
      → (append json all e j).1 ≡ true
      → Adds (line_of json e) j (append json all e j).0
  unfolding append
  append-Adds e j ok =
      elim (Bool-cases (ltb max_journal_bytes (j.bytes + length (line_of json e)))) [
        | inl full ↦ let ok' = rw (full, append) at ok in absurd (cc)
        | inr fits ↦ rw (fits, append) (record { same_run = refl; text = refl; counted = refl })
      ]

  append_all-Adds :
      (es : List Entry) (before j : Journal Record)
      → append_all es before ≡ some j
      → Adds (file_of json es) before j
  unfolding append_all
  append_all-Adds [] before j e =
      let same : before ≡ j = cc in
      subst (λ x. Adds [] before x) same
        (record {
          same_run = refl;
          text = sym (append-nil (text_of before.events));
          counted = omega arith;
        })
  append_all-Adds (x ∷ es) before j e = elim (Bool-cases (append json all x before).1) [
    | inr refused ↦ let e' = rw (refused, append_all) at e in absurd (cc)
    | inl went ↦
        Adds-trans (append-Adds x before went)
          (append_all-Adds es (append json all x before).0 j (rw (went, append_all) at e))
  ]

  -- What reading does with the lines and the rest.
  abbrev IsRead : Record → List Entry → Journal Record → Type 0
  IsRead run es j =
      ((read json j).1 ≡ done (run, es))
      × (text_of (read json j).0.events ≡ file_of json es)
      × ((read json j).0.bytes ≡ length (file_of json es))
      × ((read json j).0.run ≡ some run)

  IsRead-some :
      (run : Record) (es : List Entry) (tail : Bytes) (events : Option Bytes) (bytes : ℕ)
      → HasNoNewline tail
      → text_of events ≡ file_of json es ++ tail
      → IsRead run es (record { run = some run; events = events; bytes = bytes })
  unfolding read
  IsRead-some run es [] events bytes h t =
      let all_lines = t ∙ append-nil (file_of json es) in
      rw (t, read, split_lines-file_of json es [] h, parse_all-stringify json es)
        (refl, all_lines, ap length (append-nil (file_of json es)), refl)
  IsRead-some run es (c ∷ tail) events bytes h t =
      let whole =
        take_all json (file_of json es) (c ∷ tail)
          (length (file_of json es ++ c ∷ tail) - length (c ∷ tail))
          (kept_length json es (c ∷ tail)) in
      rw (t, read, split_lines-file_of json es (c ∷ tail) h, parse_all-stringify json es)
        (refl, whole, kept_length json es (c ∷ tail), refl)

  abbrev pub fresh : Record → Journal Record
  fresh run = create run (record { run = none; events = none; bytes = 0 })

  -- A broken write is either refused, and adds nothing, or leaves the part of a line.
  torn-Adds :
      (e : Entry) (n : ℕ) (j : Journal Record)
      → n ≤ length (json.stringify e)
      → (tail : Bytes) × HasNoNewline tail
        × ((append json (part n) e j).0.run ≡ j.run)
        × (text_of (append json (part n) e j).0.events ≡ text_of j.events ++ tail)
  unfolding append
  torn-Adds e n j le =
      elim (Bool-cases (ltb max_journal_bytes (j.bytes + length (line_of json e)))) [
        | inl full ↦ rw (full, append) ([], tt, refl, sym (append-nil (text_of j.events)))
        | inr fits ↦ rw (fits, append) (take n (line_of json e), torn_line json e n le, refl, refl)
      ]

  IsRead-of :
      (run : Record) (es : List Entry) (tail : Bytes) (j : Journal Record)
      → HasNoNewline tail
      → j.run ≡ some run
      → text_of j.events ≡ file_of json es ++ tail
      → IsRead run es j
  IsRead-of run es tail j h r t =
      subst (λ x. IsRead run es (record { run = x; events = j.events; bytes = j.bytes })) (sym r)
        (IsRead-some run es tail j.events j.bytes h t)

  -- If entries are appended to a new journal and all these appends return, and the write of one
  -- more entry breaks off before the newline of its line, then reading gives the run's record and
  -- exactly the entries appended, and leaves the file and its size as the appends left them.
  pub read-append :
      (run : Record) (es : List Entry) (e : Entry) (n : ℕ) (j : Journal Record)
      → append_all es (fresh run) ≡ some j
      → n ≤ length (json.stringify e)
      → let (k, out) = read json (append json (part n) e j).0 in
        (out ≡ done (run, es))
        × (text_of k.events ≡ text_of j.events)
        × (k.bytes ≡ j.bytes)
        × (k.run ≡ some run)
  unfolding create
  read-append run es e n j appended le =
      let added = append_all-Adds es (fresh run) j appended in
      let (tail, clean, same_run, text) = torn-Adds e n j le in
      let (out, events, bytes, run') =
        IsRead-of run es tail (append json (part n) e j).0 clean (same_run ∙ added.same_run)
          (text ∙ ap (λ (x : Bytes). x ++ tail) added.text) in
      (out, events ∙ sym added.text, bytes ∙ omega (arith, added.counted), run')
