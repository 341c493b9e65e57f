-- ===== src/TurnQueue/Single/Steps.antt =====
-- Each event keeps the runs single, and so does every sequence of them in which no stream is resumed
-- while a stop is under way.
use codeberg.Base.{
  ℕ, ◌≤◌, ◌<◌, ◌≡◌, ◌⊎◌, inl, inr, ◌&&◌, not, is_some, Bool, true, false, Option, none, some, List,
  [], ◌∷◌, arith, refl, subst, Bool-cases, Option-cases, length,
}
use codeberg.TurnQueue.State.{
  ChatStatus, Run, Stage, calling, draining, synchronizing, Waiter, stops, retries, steers, Queue,
  initial,
}
use codeberg.TurnQueue.Actions.{start, drain, resume}
use codeberg.TurnQueue.Single.{IsTracked, StageFits, current, IsOrderly, IsSingle, initial-IsSingle}
use codeberg.TurnQueue.Events.{
  wake, wake_all, settle, succeed, break, run_ended, take_run, end_run, is_over, drained,
  stop_goes_on, Event, submits, steers_with, removes, steers_queued, resumes, reconnects, stops_all,
  retries_last, regenerates, disposes, changes_status, run_ends, stop_continues, step,
}
use codeberg.TurnQueue.Single.Laws.{
  if-IsSingle, submit-IsSingle, remove-IsSingle, resume-IsSingle, reconnect-IsSingle,
  retry-IsSingle, regenerate-IsSingle, stop-IsSingle, steer-IsSingle, steer_queued-IsSingle,
  dispose-IsSingle,
}

-- The stop is over, and these are still to be woken.
record IsWaking (q : Queue) (waiting : List Waiter) : Type 0 where
  tracked : IsTracked q.active q.runs
  agreed : q.needs_synchronization ≡ false
  stopped : q.stopping ≡ none
  empty : q.waiting ≡ []
  orderly : IsOrderly q.intent q.steering waiting
  free : 0 < current q.intent waiting → q.active ≡ none

wake-IsWaking :
    {q : Queue} (w : Waiter) (ws : List Waiter) → IsWaking q (w ∷ ws) → IsWaking (wake true w q) ws
unfolding wake resume drain start
wake-IsWaking stops ws k = ground arith
wake-IsWaking retries ws k = ground arith
wake-IsWaking (steers i item) ws k = ground arith

wake_all-IsSingle : (q : Queue) (ws : List Waiter) → IsWaking q ws → IsSingle (wake_all true ws q)
unfolding wake_all
wake_all-IsSingle q [] k = ground arith
wake_all-IsSingle q (w ∷ ws) k = wake_all-IsSingle (wake true w q) ws (wake-IsWaking w ws k)

wake_none : (w : Waiter) (q : Queue) → wake false w q ≡ q
unfolding wake
wake_none stops q = refl
wake_none retries q = refl
wake_none (steers i item) q = refl

wake_all_none : (ws : List Waiter) (q : Queue) → wake_all false ws q ≡ q
unfolding wake_all
wake_all_none [] q = refl
wake_all_none (w ∷ ws) q = rw (wake_none w q) (wake_all_none ws q)

succeed-IsSingle : {q : Queue} → IsSingle q → q.active ≡ none → IsSingle (succeed q)
unfolding succeed settle
succeed-IsSingle {q} s a = wake_all-IsSingle _ q.waiting (ground arith)

break-IsSingle : {q : Queue} → IsSingle q → is_some q.stopping ≡ true → IsSingle (break q)
unfolding break settle
break-IsSingle {q} s h = rw (wake_all_none q.waiting _) (ground arith)

-- A single run that ends leaves none.
take_run-IsTracked :
    (id : ℕ) (runs : List Run) (active : Option ℕ) {found : Run × List Run}
    → IsTracked active runs
    → take_run id runs ≡ some found
    → found.1 ≡ []
unfolding take_run
take_run-IsTracked id [] active t e = absurd (cc)
take_run-IsTracked id (run ∷ []) none t e = absurd t
take_run-IsTracked id (run ∷ []) (some a) t e = ground arith
take_run-IsTracked id (run ∷ (other ∷ rest)) none t e = absurd t
take_run-IsTracked id (run ∷ (other ∷ rest)) (some a) t e = absurd t

run_ended-IsSingle :
    {q : Queue} (threw : Bool) (run : Run) → IsSingle q → IsSingle (run_ended threw run [] q)
unfolding run_ended drain start
run_ended-IsSingle true run s = ground arith
run_ended-IsSingle false run s = ground arith

end_run-IsSingle : {q : Queue} (threw : Bool) (id : ℕ) → IsSingle q → IsSingle (end_run threw id q)
unfolding end_run
end_run-IsSingle {q} threw id s = elim (Option-cases (take_run id q.runs)) [
  | inl missing ↦ rw (missing, end_run) s
  | inr ((run, others), found) ↦
      let gone : others ≡ [] = take_run-IsTracked id q.runs q.active s.tracked found in
      rw (found, end_run, gone) (run_ended-IsSingle threw run s)
]

-- The awaited run is over, so nothing is active.
over-idle :
    (awaited active : Option ℕ) (runs : List Run)
    → IsTracked active runs
    → is_over awaited runs ≡ true
    → (active ≡ none) ⊎ (active ≡ awaited)
    → active ≡ none
unfolding take_run
over-idle awaited active runs t o (inl none_left) = none_left
over-idle none active runs t o (inr same) = same
over-idle (some id) none runs t o (inr same) = refl
over-idle (some id) (some a) [] t o (inr same) = absurd t
over-idle (some id) (some a) (run ∷ []) t o (inr same) = ground arith
over-idle (some id) (some a) (run ∷ (other ∷ rest)) t o (inr same) = absurd t

drained-IsSingle :
    {q : Queue} (awaited : Option ℕ)
    → IsSingle q
    → q.stopping ≡ some (draining awaited)
    → IsSingle (drained awaited q)
drained-IsSingle {q} awaited s e = elim (Bool-cases (is_over awaited q.runs)) [
  | inr running ↦ rw running s
  | inl over ↦
      let fits : (q.active ≡ none) ⊎ (q.active ≡ awaited) =
        subst (λ x. StageFits x q.active) e s.stage in
      let free = over-idle awaited q.active q.runs s.tracked over fits in
      let asking : IsSingle (record q { stopping = some synchronizing }) = ground arith in
      rw over
        (if-IsSingle (not q.disposed && q.needs_synchronization) asking (succeed-IsSingle s free))
]

stop_goes_on-IsSingle :
    {q : Queue} (threw confirmed : Bool) (stage : Option Stage)
    → q.stopping ≡ stage
    → IsSingle q
    → IsSingle (stop_goes_on threw confirmed stage q)
unfolding stop_goes_on
stop_goes_on-IsSingle threw confirmed none e s = s
stop_goes_on-IsSingle true confirmed (some calling) e s = break-IsSingle s (ground arith)
stop_goes_on-IsSingle false confirmed (some calling) e s = ground arith
stop_goes_on-IsSingle threw confirmed (some (draining awaited)) e s = drained-IsSingle awaited s e
stop_goes_on-IsSingle true confirmed (some synchronizing) e s = break-IsSingle s (ground arith)
stop_goes_on-IsSingle false confirmed (some synchronizing) e s = succeed-IsSingle s (ground arith)

-- A stream is resumed only while no stop is under way.
abbrev pub IsOrderlyEvent : Event → Queue → Type 0
IsOrderlyEvent reconnects q = q.stopping ≡ none
IsOrderlyEvent _ q = Unit {0}

step-IsSingle : {q : Queue} (e : Event) → IsOrderlyEvent e q → IsSingle q → IsSingle (step e q)
unfolding step
step-IsSingle (submits input) h s = submit-IsSingle input s
step-IsSingle (steers_with input) h s = steer-IsSingle input s
step-IsSingle (removes id) h s = remove-IsSingle id s
step-IsSingle (steers_queued id) h s = steer_queued-IsSingle id s
step-IsSingle resumes h s = resume-IsSingle s
step-IsSingle reconnects h s = reconnect-IsSingle s h
step-IsSingle stops_all h s = stop-IsSingle s
step-IsSingle retries_last h s = retry-IsSingle s
step-IsSingle regenerates h s = regenerate-IsSingle s
step-IsSingle disposes h s = dispose-IsSingle s
step-IsSingle (changes_status status) h s = ground arith
step-IsSingle (run_ends threw id) h s = end_run-IsSingle threw id s
step-IsSingle {q} (stop_continues threw confirmed) h s =
    stop_goes_on-IsSingle threw confirmed q.stopping refl s

-- What orderly events lead to.
pub data Reaches (q : Queue) : Queue → Type 0 where
  here : Reaches q q
  next : {p : Queue} (e : Event) → Reaches q p → IsOrderlyEvent e p → Reaches q (step e p)

Reaches-IsSingle : {q p : Queue} → IsSingle q → Reaches q p → IsSingle p
Reaches-IsSingle s here = s
Reaches-IsSingle s (next e r h) = step-IsSingle e h (Reaches-IsSingle s r)

single_run : (active : Option ℕ) (runs : List Run) → IsTracked active runs → length runs ≤ 1
single_run none [] t = omega arith
single_run none (run ∷ rest) t = absurd t
single_run (some id) [] t = absurd t
single_run (some id) (run ∷ []) t = omega arith
single_run (some id) (run ∷ (other ∷ rest)) t = absurd t

-- From a new queue, through any sequence of calls, run results and stop results in which no stream
-- is resumed while a stop is under way, at most one run is ever under way, and it is the active
-- one; with none under way there is no active one.
pub one_run :
    (remote synchronizes : Bool) (status : ChatStatus) (q : Queue)
    → Reaches (initial remote synchronizes status) q
    → (length q.runs ≤ 1) × IsTracked q.active q.runs
one_run remote synchronizes status q r =
    let s = Reaches-IsSingle (initial-IsSingle remote synchronizes status) r in
    (single_run q.active q.runs s.tracked, s.tracked)
