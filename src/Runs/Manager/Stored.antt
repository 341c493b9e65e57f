-- ===== src/Runs/Manager/Stored.antt =====
-- Which runs have a directory, and how looking for runs and launching them keep that.
use codeberg.Base.{
  ℕ, ◌==◌, ◌≡◌, inl, inr, is_some, true, false, Option, none, some, List, [], ◌∷◌, keep_if, arith,
  refl, subst, Bool-cases, Option-cases,
}
use codeberg.Runs.Run.{Run, is_running, is_run, find_run, save_run, find_active}
use codeberg.Runs.Manager.{
  SearchRuns, Found, Storage, writes, throws, throws_and_keeps, recovered, load, find, is_other,
  launch,
}

-- The directory of a run exists.
abbrev pub IsStored : ℕ → ℕ → List Run → Type 0
IsStored chat_id id runs = is_some (find_run chat_id id runs) ≡ true

pub save_run-IsStored :
    (chat_id id : ℕ) (run : Run) (runs : List Run)
    → IsStored chat_id id runs
    → IsStored chat_id id (save_run run runs)
unfolding find_run save_run
save_run-IsStored chat_id id run [] h = absurd (cc)
save_run-IsStored chat_id id run (other ∷ rest) h =
    let ih = save_run-IsStored chat_id id run rest in ground arith

pub saved-IsStored : (run : Run) (runs : List Run) → IsStored run.chat_id run.id (save_run run runs)
unfolding find_run save_run
saved-IsStored run [] = ground arith
saved-IsStored run (other ∷ rest) = let ih = saved-IsStored run rest in ground arith

-- A run with a directory is another than one without.
pub other_run :
    (chat_id id : ℕ) (run : Run) (runs : List Run)
    → IsStored chat_id id runs
    → find_run run.chat_id run.id runs ≡ none
    → is_run chat_id id run ≡ false
other_run chat_id id run runs h e = elim (Bool-cases (is_run chat_id id run)) [
  | inr other ↦ other
  | inl same ↦
      let chat : run.chat_id ≡ chat_id = ground arith in
      let this : run.id ≡ id = ground arith in
      let known : IsStored run.chat_id run.id runs = rw (chat, this) h in absurd (cc)
]

-- Discarding another run's directory.
pub discarded-IsStored :
    (chat_id id : ℕ) (run : Run) (runs : List Run)
    → is_run chat_id id run ≡ false
    → IsStored chat_id id runs
    → IsStored chat_id id (keep_if (is_other run) runs)
unfolding find_run
discarded-IsStored chat_id id run [] n h = h
discarded-IsStored chat_id id run (other ∷ rest) n h =
    let ih = discarded-IsStored chat_id id run rest n in ground arith

pub load-IsStored :
    (chat_id id c i : ℕ) (s : SearchRuns)
    → IsStored chat_id id s.stored
    → IsStored chat_id id (load c i s).0.stored
unfolding load
load-IsStored chat_id id c i s h = elim (Option-cases (find_run c i s.stored)) [
  | inl missing ↦ rw (missing, load) h
  | inr (run, found) ↦ rw (found, load) (save_run-IsStored chat_id id (recovered run) s.stored h)
]

pub find-IsStored :
    (chat_id id c i : ℕ) (s : SearchRuns)
    → IsStored chat_id id s.stored
    → IsStored chat_id id (find c i s).0.stored
unfolding find
find-IsStored chat_id id c i s h = elim (Option-cases (find_active c s.active)) [
  | inl missing ↦ rw (missing, find) (load-IsStored chat_id id c i s h)
  | inr (live, found) ↦ elim (Bool-cases (live.id == i)) [
    | inl same ↦ rw (found, find, same) h
    | inr other ↦ rw (found, find, other) (load-IsStored chat_id id c i s h)
  ]
]

pub load-none :
    (c i : ℕ) (s : SearchRuns)
    → (load c i s).1 ≡ none
    → (find_run c i s.stored ≡ none) × ((load c i s).0 ≡ s)
unfolding load
load-none c i s e = elim (Option-cases (find_run c i s.stored)) [
  | inl missing ↦ (missing, rw (missing, load) refl)
  | inr (run, found) ↦ let e' = rw (found, load) at e in absurd (cc)
]

-- A request without a run has none on disk, and looking for it changes nothing.
pub find-none :
    (c i : ℕ) (s : SearchRuns)
    → (find c i s).1 ≡ none
    → (find_run c i s.stored ≡ none) × ((find c i s).0 ≡ s)
unfolding find
find-none c i s e = elim (Option-cases (find_active c s.active)) [
  | inl missing ↦ rw (missing, find) (load-none c i s (rw (missing, find) at e))
  | inr (live, found) ↦ elim (Bool-cases (live.id == i)) [
    | inl same ↦ let e' = rw (found, find, same) at e in absurd (cc)
    | inr other ↦ rw (found, find, other) (load-none c i s (rw (found, find, other) at e))
  ]
]

pub load-active : (c i : ℕ) (s : SearchRuns) → (load c i s).0.active ≡ s.active
unfolding load
load-active c i s = elim (Option-cases (find_run c i s.stored)) [
  | inl missing ↦ rw (missing, load) refl
  | inr (run, found) ↦ rw (found, load) refl
]

pub find-active : (c i : ℕ) (s : SearchRuns) → (find c i s).0.active ≡ s.active
unfolding find
find-active c i s = elim (Option-cases (find_active c s.active)) [
  | inl missing ↦ rw (missing, find) (load-active c i s)
  | inr (live, found) ↦ elim (Bool-cases (live.id == i)) [
    | inl same ↦ rw (found, find, same) refl
    | inr other ↦ rw (found, find, other) (load-active c i s)
  ]
]

-- The run of a chat and an id.
abbrev pub IsNamed : ℕ → ℕ → Run → Type 0
IsNamed chat_id id run = (run.chat_id ≡ chat_id) × (run.id ≡ id)

-- What was found, if anything, is the run of that chat and id.
abbrev pub IsFound : ℕ → ℕ → Option Found → Type 0
IsFound chat_id id none = Unit {0}
IsFound chat_id id (some f) = IsNamed chat_id id f.run

find_run-IsNamed :
    (c i : ℕ) (runs : List Run) (run : Run) → find_run c i runs ≡ some run → IsNamed c i run
unfolding find_run
find_run-IsNamed c i [] run e = absurd (cc)
find_run-IsNamed c i (other ∷ rest) run e = elim (Bool-cases (is_run c i other)) [
  | inr differs ↦ find_run-IsNamed c i rest run (rw (differs, find_run) at e)
  | inl same ↦
      let e' = rw (same, find_run) at e in
      let this : other ≡ run = cc in subst (IsNamed c i) this (ground arith, ground arith)
]

find_active_chat :
    (c : ℕ) (runs : List Run) (run : Run) → find_active c runs ≡ some run → run.chat_id ≡ c
unfolding find_active
find_active_chat c [] run e = absurd (cc)
find_active_chat c (other ∷ rest) run e = elim (Bool-cases (other.chat_id == c)) [
  | inr differs ↦ find_active_chat c rest run (rw (differs, find_active) at e)
  | inl same ↦
      let e' = rw (same, find_active) at e in
      let this : other ≡ run = cc in subst (λ (x : Run). x.chat_id ≡ c) this (ground arith)
]

recovered-IsNamed : (c i : ℕ) (run : Run) → IsNamed c i run → IsNamed c i (recovered run)
recovered-IsNamed c i run h = elim (Bool-cases (is_running run.status)) [
  | inl live ↦ rw live h
  | inr ended ↦ rw ended h
]

load-IsFound : (c i : ℕ) (s : SearchRuns) → IsFound c i (load c i s).1
unfolding load
load-IsFound c i s = elim (Option-cases (find_run c i s.stored)) [
  | inl missing ↦ rw (missing, load) tt
  | inr (run, found) ↦
      rw (found, load) (recovered-IsNamed c i run (find_run-IsNamed c i s.stored run found))
]

-- Looking for a run gives that of the chat and the id, or none.
pub find-IsFound : (c i : ℕ) (s : SearchRuns) → IsFound c i (find c i s).1
unfolding find
find-IsFound c i s = elim (Option-cases (find_active c s.active)) [
  | inl missing ↦ rw (missing, find) (load-IsFound c i s)
  | inr (live, found) ↦ elim (Bool-cases (live.id == i)) [
    | inl same ↦ rw (found, find, same) (find_active_chat c s.active live found, ground arith)
    | inr other ↦ rw (found, find, other) (load-IsFound c i s)
  ]
]

pub launch-IsStored :
    (chat_id id : ℕ) (storage : Storage) (run : Run) (s : SearchRuns)
    → is_run chat_id id run ≡ false
    → IsStored chat_id id s.stored
    → IsStored chat_id id (launch storage run s).0.stored
unfolding launch
launch-IsStored chat_id id writes run s n h = save_run-IsStored chat_id id run s.stored h
launch-IsStored chat_id id throws run s n h = discarded-IsStored chat_id id run s.stored n h
launch-IsStored chat_id id throws_and_keeps run s n h = save_run-IsStored chat_id id run s.stored h
