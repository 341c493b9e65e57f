-- ===== src/History/Checkpoints/Laws.antt =====
-- What is saved of a fitted chat.
use codeberg.Base.{
  ℕ, zero, suc, ◌-◌, ◌≤◌, ◌≡◌, inl, inr, ◌==◌, leb, ◌||◌, not, Bool, true, false, Option, none,
  some, List, [], ◌∷◌, ◌++◌, length, drop, get_elem?, arith, refl, sym, ap, ◌∙◌, subst, Bool-cases,
  Option-cases,
}
use codeberg.Text.{Text, same_text}
use codeberg.Text.Same.{same_text_refl}
use codeberg.Prefixes.{prefix_keys, read_file, has_archives, check, load}
use codeberg.History.Messages.{user, ModelMessage, total_tokens}
use codeberg.History.Files.{open_tag, captures}
use codeberg.History.Fit.{
  Result, ok, aborted, failed, FitOptions, history_marker, fit_history, fit_over, with_marker,
}
use codeberg.History.Fit.Laws.{start_of, fit_over-Marked}
use codeberg.History.Checkpoints.{
  Checkpoint, Files, Run, is_user, is_marker, includes, accepts_checkpoint, valid_checkpoint,
  is_same, record_of, save_fitted, finish, load_checkpoint, run,
}

-- What a chat that does not fit becomes, if it is fitted.
pub record IsMarked (messages r : List ModelMessage) (o : FitOptions) : Type 0 where
  pub summary : Option Text
  pub omitted : ℕ
  pub files : List Text
  pub fitted_lem : r ≡ history_marker summary omitted files ∷ drop (start_of o messages) messages
  pub moved : 1 ≤ start_of o messages

pub fit_history-IsMarked :
    (messages : List ModelMessage) (o : FitOptions) (r : List ModelMessage)
    → is_same messages o ≡ false
    → fit_history messages o ≡ ok r
    → IsMarked messages r o
unfolding fit_history fit_over with_marker
fit_history-IsMarked messages o r h e = elim (Bool-cases o.aborted_before) [
  | inl gone ↦ let e' = rw gone at e in absurd (cc)
  | inr going ↦
      let over : leb (total_tokens messages) o.budget ≡ false = ground arith in
      let some_older : (start_of o messages == 0) ≡ false = ground arith in
      let (s, marked) =
        fit_over-Marked o messages (start_of o messages) r (ground arith) (rw (going, over) at e) in
      record { summary = s; omitted = _; files = _; fitted_lem = marked; moved = ground arith }
]

pub drop-append :
    (n : ℕ) (xs ys : List ModelMessage) → n ≤ length xs → drop n (xs ++ ys) ≡ drop n xs ++ ys
drop-append zero xs ys h = refl
drop-append (suc n) [] ys h = absurd (omega arith)
drop-append (suc n) (x ∷ xs) ys h = drop-append n xs ys (omega arith)

load_empty :
    {A : Type 0} (accepts : Text → ℕ → A → Bool) (count : ℕ) (keys : List Text)
    → load accepts [] count keys ≡ none
unfolding load check read_file
load_empty accepts count [] = refl
load_empty accepts count (k ∷ keys) = rw (load_empty accepts (suc count) keys, load) refl

-- What is recorded of a fitted chat.
pub record IsRecorded (hashes : List Text) (count : ℕ) (first : ModelMessage) (c : Checkpoint)
    : Type 0 where
  pub positive : 1 ≤ count
  pub found : get_elem? hashes (count - 1) ≡ some c.hash
  pub counted : c.count ≡ count
  pub from_user : c.role ≡ user
  pub text_kept : c.content ≡ some first.text

pub record_of-IsRecorded :
    (hashes : List Text) (count : ℕ) (first : ModelMessage) (c : Checkpoint)
    → record_of hashes count first ≡ some c
    → IsRecorded hashes count first c
record_of-IsRecorded hashes count first c e =
    elim (Bool-cases (count == 0 || not (includes first.text open_tag))) [
      | inl bad ↦ let e' = rw bad at e in absurd (cc)
      | inr good ↦ elim (Option-cases (get_elem? hashes (count - 1))) [
        | inl missing ↦ let e' = rw (good, missing) at e in absurd (cc)
        | inr (hash, found) ↦
            let e' = rw (good, found) at e in
            let same : record { count = count; hash = hash; role = user; content = some first.text }
                ≡ c =
              cc in
            rw (← same) (record {
              positive = ground arith;
              found = found;
              counted = refl;
              from_user = refl;
              text_kept = refl;
            })
      ]
    ]

-- A run that fitted the chat to `r` and saved one checkpoint.
abbrev pub saved_as : List ModelMessage → Text → Checkpoint → Run
saved_as r key c = record { result = ok r; files = (key, some c) ∷ [] }

pub record IsSaved (hashes : List Text) (size : ℕ) (r : List ModelMessage) (key : Text)
    (c : Checkpoint) : Type 0 where
  pub first : ModelMessage
  pub rest : List ModelMessage
  pub fitted_lem : r ≡ first ∷ rest
  pub recorded : record_of hashes (size - length rest) first ≡ some c
  pub keyed : key ≡ c.hash

abbrev head_file : Files → Text × Option Checkpoint
head_file [] = ([], none)
head_file (f ∷ fs) = f

same_some : (d c : Checkpoint) → some d ≡ some c → d ≡ c
same_some d c e = cc

abbrev alone : Text → Checkpoint → Files
alone key c = (key, some c) ∷ []

one_file : (d c : Checkpoint) (key : Text) → alone d.hash d ≡ alone key c → (d ≡ c) × (d.hash ≡ key)
one_file d c key e =
    (same_some d c (ap (λ (x : Files). (head_file x).1) e), ap (λ (x : Files). (head_file x).0) e)

save_fitted-IsSaved :
    (hashes : List Text) (size : ℕ) (r : List ModelMessage) (key : Text) (c : Checkpoint)
    → save_fitted true none hashes size r [] ≡ (key, some c) ∷ []
    → IsSaved hashes size r key c
unfolding save_fitted
save_fitted-IsSaved hashes size [] key c e = absurd (cc)
save_fitted-IsSaved hashes size (first ∷ rest) key c e = elim (Bool-cases (is_user first.role)) [
  | inr other ↦ let e' = rw other at e in absurd (cc)
  | inl is ↦ elim (Option-cases (record_of hashes (size - length rest) first)) [
    | inl nothing ↦ let e' = rw (is, nothing) at e in absurd (cc)
    | inr (d, made) ↦
        let (same, same_key) = one_file d c key (rw (is, made) at e) in
        record {
          first = first;
          rest = rest;
          fitted_lem = refl;
          recorded = made ∙ ap some same;
          keyed = sym same_key ∙ ap (λ (x : Checkpoint). x.hash) same;
        }
  ]
]

finish-IsSaved :
    (hashes : List Text) (same : Bool) (size : ℕ) (x : Result (List ModelMessage))
    (r : List ModelMessage) (key : Text) (c : Checkpoint)
    → finish true none hashes same size [] x ≡ saved_as r key c
    → (x ≡ ok r) × (same ≡ false) × IsSaved hashes size r key c
unfolding finish
finish-IsSaved hashes same size (failed f) r key c e =
    let e' = ap (λ (k : Run). k.result) e in absurd (cc)
finish-IsSaved hashes same size aborted r key c e =
    let e' = ap (λ (k : Run). k.result) e in absurd (cc)
finish-IsSaved hashes true size (ok fitted) r key c e =
    let e' = ap (λ (k : Run). k.files) e in absurd (cc)
finish-IsSaved hashes false size (ok fitted) r key c e =
    let given : ok fitted ≡ ok r = ap (λ (k : Run). k.result) e in
    let fitted_is : fitted ≡ r = cc in
    let files : save_fitted true none hashes size fitted [] ≡ (key, some c) ∷ [] =
      ap (λ (k : Run). k.files) e in
    (
      given,
      refl,
      subst (λ l. IsSaved hashes size l key c) fitted_is
          (save_fitted-IsSaved hashes size fitted key c files),
    )

module _ (digest : Text → Text) (fingerprint : ModelMessage → Text) (resolves : Text → Bool) where
  pub run-IsSaved :
      (messages : List ModelMessage) (o : FitOptions) (r : List ModelMessage) (key : Text)
      (c : Checkpoint)
      → run digest fingerprint resolves true messages o [] ≡ saved_as r key c
      → (fit_history messages o ≡ ok r)
        × (is_same messages o ≡ false)
        × IsSaved (prefix_keys digest fingerprint [] messages) (length messages) r key c
  unfolding run load_checkpoint
  run-IsSaved messages o r key c e =
      let hashes = prefix_keys digest fingerprint [] messages in
      let e' : finish true none hashes (is_same messages o) (length messages) []
            (fit_history messages o)
          ≡ saved_as r key c =
        rw (load_empty (accepts_checkpoint resolves) 1 hashes) at e in
      finish-IsSaved hashes (is_same messages o) (length messages) (fit_history messages o) r key c
        e'

  pub accepts-saved :
      (count : ℕ) (key content : Text) (c : Checkpoint)
      → c.count ≡ count
      → key ≡ c.hash
      → c.role ≡ user
      → c.content ≡ some content
      → is_marker (some content) ≡ true
      → has_archives resolves (captures content) ≡ true
      → check (accepts_checkpoint resolves) key count (some c) ≡ some c
  unfolding check valid_checkpoint
  accepts-saved count key content c n k u t m a =
      let number : (c.count == count) ≡ true = ground arith in
      let same : same_text c.hash key ≡ true = rw k (same_text_refl c.hash) in
      let accepted : accepts_checkpoint resolves key count c ≡ true =
        rw (same, number, u, t, m, a) refl in
      rw accepted refl
