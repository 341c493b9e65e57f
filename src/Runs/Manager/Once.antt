-- ===== src/Runs/Manager/Once.antt =====
-- A request that was admitted has a run from then on, so it is not run again.
use codeberg.Base.{
  ℕ, ◌==◌, ◌≡◌, inl, inr, is_some, true, false, Option, List, [], ◌∷◌, arith, refl, subst,
  Bool-cases, In, In-keep_if_of, In-cons, there,
}
use codeberg.Runs.Run.{Run, RunInput, find_active}
use codeberg.Runs.Manager.{
  Names, SearchRuns, Found, Admission, admitted, existing, refused, threw, Storage, writes, throws,
  throws_and_keeps, launch, new_run, again, start, request_stop, not_of_chat,
}
use codeberg.Runs.Manager.Events.{
  restart, Event, admits, finishes, stops, closes, restarts, step, steps,
}
use codeberg.Runs.Manager.Stored.{
  IsStored, IsNamed, IsFound, find-IsFound, saved-IsStored, find-IsStored, find-active, other_run,
  launch-IsStored,
}
use codeberg.Runs.Manager.Kept.{finish-IsStored, recover-IsStored}
use codeberg.Runs.Manager.Starts.{key, Starts, refuses, repeats, launches, start-Starts}

-- An answer that starts nothing: the run of the chat and the id, or a refusal.
abbrev pub IsRepeat : ℕ → ℕ → Admission → Type 0
IsRepeat chat_id id (existing f) = IsNamed chat_id id f.run
IsRepeat chat_id id (refused code) = Unit {0}
IsRepeat chat_id id (admitted f) = ⊥
IsRepeat chat_id id threw = ⊥

not_of_busy :
    (chat_id : ℕ) (runs : List Run) {run : Run}
    → In run runs
    → is_some (find_active chat_id runs) ≡ false
    → not_of_chat chat_id run ≡ true
unfolding find_active
not_of_busy chat_id [] i h = elim i [ ]
not_of_busy chat_id (other ∷ rest) i h = elim (In-cons i) [
  | inl same ↦ rw (← same) (ground arith)
  | inr j ↦
      let later : is_some (find_active chat_id rest) ≡ false = ground arith in
      not_of_busy chat_id rest j later
]

launch_live :
    (storage : Storage) (new : Run) (s : SearchRuns) {run : Run}
    → In run s.active
    → is_some (find_active new.chat_id s.active) ≡ false
    → In run (launch storage new s).0.active
unfolding launch
launch_live writes new s i h =
    there
      (In-keep_if_of (not_of_chat new.chat_id) s.active i (not_of_busy new.chat_id s.active i h))
launch_live throws new s i h =
    let other = not_of_busy new.chat_id s.active i h in
    In-keep_if_of (not_of_chat new.chat_id) _
      (there (In-keep_if_of (not_of_chat new.chat_id) s.active i other)) other
launch_live throws_and_keeps new s i h =
    let other = not_of_busy new.chat_id s.active i h in
    In-keep_if_of (not_of_chat new.chat_id) _
      (there (In-keep_if_of (not_of_chat new.chat_id) s.active i other)) other

launch-admitted :
    (storage : Storage) (run : Run) (s : SearchRuns) (f : Found)
    → (launch storage run s).1 ≡ admitted f
    → IsStored run.chat_id run.id (launch storage run s).0.stored
unfolding launch
launch-admitted writes run s f e = saved-IsStored run s.stored
launch-admitted throws run s f e = absurd (cc)
launch-admitted throws_and_keeps run s f e = absurd (cc)

module _ {Request : Type 0} (names : Names Request) where
  again-IsRepeat :
      (chat_id id : ℕ) (input : RunInput Request) (f : Found)
      → IsNamed chat_id id f.run
      → IsRepeat chat_id id (again names input f)
  unfolding again
  again-IsRepeat chat_id id input f named =
      elim (Bool-cases (f.run.fingerprint == names.fingerprint input.messages input.trigger)) [
        | inl same ↦ rw same named
        | inr other ↦ rw other tt
      ]

  Starts-IsStored :
      (chat_id id : ℕ) {storage : Storage} {input : RunInput Request} {s : SearchRuns}
      {r : SearchRuns × Admission}
      → Starts names storage input s r
      → IsStored chat_id id s.stored
      → IsStored chat_id id r.0.stored
  Starts-IsStored chat_id id (refuses code) h = h
  Starts-IsStored chat_id id {storage} {input} {s} (repeats loaded f e) h =
      subst (λ (p : SearchRuns × Option Found). IsStored chat_id id p.0.stored) e
        (find-IsStored chat_id id input.chat_id (key names input) s h)
  Starts-IsStored chat_id id {storage} {input} {s} (launches messages unknown free) h =
      let new = new_run names input messages in
      launch-IsStored chat_id id storage new s (other_run chat_id id new s.stored h unknown) h

  Starts-admitted :
      {storage : Storage} {input : RunInput Request} {s : SearchRuns} {r : SearchRuns × Admission}
      (f : Found)
      → Starts names storage input s r
      → r.1 ≡ admitted f
      → IsStored input.chat_id (key names input) r.0.stored
  Starts-admitted f (refuses code) e = absurd (cc)
  Starts-admitted {storage} {input} {s} f (repeats loaded g found) e =
      let c = input.chat_id in
      let i = key names input in
      let named : IsNamed c i g.run =
        subst (λ (p : SearchRuns × Option Found). IsFound c i p.1) found (find-IsFound c i s) in
      absurd (subst (IsRepeat c i) e (again-IsRepeat c i input g named))
  Starts-admitted {storage} {input} {s} f (launches messages unknown free) e =
      launch-admitted storage (new_run names input messages) s f e

  Starts-known :
      {storage : Storage} {input : RunInput Request} {s : SearchRuns} {r : SearchRuns × Admission}
      → Starts names storage input s r
      → IsStored input.chat_id (key names input) s.stored
      → IsRepeat input.chat_id (key names input) r.1 × (r.0.active ≡ s.active)
  Starts-known (refuses code) h = (tt, refl)
  Starts-known {storage} {input} {s} (repeats loaded f e) h = (
    again-IsRepeat input.chat_id (key names input) input f (
        subst (λ (p : SearchRuns × Option Found). IsFound input.chat_id (key names input) p.1) e
          (find-IsFound input.chat_id (key names input) s)),
    subst (λ (p : SearchRuns × Option Found). p.0.active ≡ s.active) e
        (find-active input.chat_id (key names input) s),
  )
  Starts-known {storage} {input} {s} (launches messages unknown free) h = absurd (cc)

  Starts-live :
      {storage : Storage} {input : RunInput Request} {s : SearchRuns} {r : SearchRuns × Admission}
      {run : Run}
      → Starts names storage input s r
      → In run s.active
      → In run r.0.active
  Starts-live (refuses code) i = i
  Starts-live {storage} {input} {s} {r} {run} (repeats loaded f e) i =
      let same : loaded.active ≡ s.active =
        subst (λ (p : SearchRuns × Option Found). p.0.active ≡ s.active) e
          (find-active input.chat_id (key names input) s) in
      rw same i
  Starts-live {storage} {input} {s} (launches messages unknown free) i =
      launch_live storage (new_run names input messages) s i free

  step-IsStored :
      (chat_id id : ℕ) (e : Event Request) (s : SearchRuns)
      → IsStored chat_id id s.stored
      → IsStored chat_id id (step names e s).stored
  unfolding step restart request_stop
  step-IsStored chat_id id (admits storage input) s h =
      Starts-IsStored chat_id id (start-Starts names storage input s) h
  step-IsStored chat_id id (finishes c ending) s h = finish-IsStored chat_id id c ending s h
  step-IsStored chat_id id (stops c request) s h = h
  step-IsStored chat_id id closes s h = h
  step-IsStored chat_id id restarts s h = recover-IsStored chat_id id s.sessions _ h

  steps-IsStored :
      (chat_id id : ℕ) (es : List (Event Request)) (s : SearchRuns)
      → IsStored chat_id id s.stored
      → IsStored chat_id id (steps names es s).stored
  unfolding steps
  steps-IsStored chat_id id [] s h = h
  steps-IsStored chat_id id (e ∷ es) s h =
      steps-IsStored chat_id id es (step names e s) (step-IsStored chat_id id e s h)

  same_request :
      (input input' : RunInput Request) (answer : Admission)
      → input'.chat_id ≡ input.chat_id
      → input'.request ≡ input.request
      → IsRepeat input'.chat_id (key names input') answer
      → IsRepeat input.chat_id (key names input) answer
  same_request input input' answer chat request h =
      let named = subst (λ c. IsRepeat c (names.hash c input'.request) answer) chat h in
      subst (λ r. IsRepeat input.chat_id (names.hash input.chat_id r) answer) request named

  -- Once a request of a chat was admitted, whatever admissions, ends of runs, stops, closing and
  -- restarts follow, asking for the same request again, with any messages, starts nothing: the
  -- answer is the run of that chat under the id of that request, or a refusal, and the active runs
  -- stay what they are.
  pub admitted_once :
      (storage storage' : Storage) (input input' : RunInput Request) (s : SearchRuns) (f : Found)
      (es : List (Event Request))
      → (start names storage input s).1 ≡ admitted f
      → input'.chat_id ≡ input.chat_id
      → input'.request ≡ input.request
      → let later = steps names es (start names storage input s).0 in
        IsRepeat input.chat_id
          (names.hash input.chat_id input.request)
          (start names storage' input' later).1
        × ((start names storage' input' later).0.active ≡ later.active)
  admitted_once storage storage' input input' s f es e chat request =
      let now = Starts-admitted f (start-Starts names storage input s) e in
      let kept =
        steps-IsStored input.chat_id (key names input) es (start names storage input s).0 now in
      let known : IsStored input'.chat_id (key names input')
          (steps names es (start names storage input s).0).stored =
        rw (chat, request) kept in
      let (answer, same) = Starts-known (start-Starts names storage' input' _) known in
      (same_request input input' _ chat request answer, same)

  -- An admission, whatever becomes of it, keeps every run that is under way among the active ones.
  pub live_kept :
      (storage : Storage) (input : RunInput Request) (s : SearchRuns) (run : Run)
      → In run s.active
      → In run (start names storage input s).0.active
  live_kept storage input s run i = Starts-live (start-Starts names storage input s) i
