-- ===== src/TurnQueue/Paused.antt =====
-- After a stop nothing is sent until someone asks for it.
use codeberg.Base.{
  ℕ, ◌+◌, ◌==◌, ◌≡◌, inl, inr, if◌then◌else◌, ◌&&◌, not, Bool, true, false, Option, none, some,
  List, [], ◌∷◌, ◌++◌, arith, refl, Bool-cases, Option-cases, In, In-cons, here, there,
  Option-cases,
}
use codeberg.TurnQueue.State.{
  TurnInput, QueuedTurn, Run, Stage, calling, draining, synchronizing, Waiter, stops, retries,
  steers, Queue,
}
use codeberg.TurnQueue.Actions.{drain, submit, remove, stop_active, stop}
use codeberg.TurnQueue.Events.{
  wake, wake_all, settle, succeed, break, run_ended, take_run, end_run, is_over, stop_goes_on,
  Event, submits, steers_with, removes, steers_queued, resumes, reconnects, stops_all, retries_last,
  regenerates, disposes, changes_status, run_ends, stop_continues, step,
}
use codeberg.TurnQueue.Single.{AllBelow}
use codeberg.TurnQueue.Kept.{run_events}

-- None of those who wait will send: no retry, and no steer of this intent.
abbrev pub AllSilent : ℕ → List Waiter → Type 0
AllSilent intent [] = Unit {0}
AllSilent intent (stops ∷ rest) = AllSilent intent rest
AllSilent intent (retries ∷ rest) = ⊥
AllSilent intent (steers i item ∷ rest) = ((i == intent) ≡ false) × AllSilent intent rest

abbrev pub HasNoRetry : List Waiter → Type 0
HasNoRetry [] = Unit {0}
HasNoRetry (retries ∷ rest) = ⊥
HasNoRetry (stops ∷ rest) = HasNoRetry rest
HasNoRetry (steers i item ∷ rest) = HasNoRetry rest

-- What happens with no one asking for a turn to be sent at once.
abbrev pub IsPassive : Event → Type 0
IsPassive (submits input) = Unit {0}
IsPassive (removes id) = Unit {0}
IsPassive (changes_status status) = Unit {0}
IsPassive (run_ends threw id) = Unit {0}
IsPassive (stop_continues threw confirmed) = Unit {0}
IsPassive _ = ⊥

abbrev pub AllPassive : List Event → Type 0
AllPassive [] = Unit {0}
AllPassive (e ∷ rest) = IsPassive e × AllPassive rest

pub record IsQuiet (q : Queue) : Type 0 where
  pub paused : q.paused ≡ true
  pub silent : AllSilent q.intent q.waiting

AllSilent-raised :
    (n : ℕ) (ws : List Waiter)
    → AllBelow n ws
    → HasNoRetry ws
    → AllSilent (n + 1) (ws ++ stops ∷ [])
AllSilent-raised n [] b h = tt
AllSilent-raised n (stops ∷ ws) b h = AllSilent-raised n ws b h
AllSilent-raised n (retries ∷ ws) b h = absurd h
AllSilent-raised n (steers i item ∷ ws) b h = (ground arith, AllSilent-raised n ws b.1 h)

stop-IsQuiet : (q : Queue) → AllBelow q.intent q.waiting → HasNoRetry q.waiting → IsQuiet (stop q)
unfolding stop stop_active
stop-IsQuiet q b h = let silent = AllSilent-raised q.intent q.waiting b h in ground arith

stop_runs : (q : Queue) → (stop q).runs ≡ q.runs
unfolding stop stop_active
stop_runs q = ground arith

drain_quiet : (q : Queue) → q.paused ≡ true → drain q ≡ q
unfolding drain
drain_quiet q p = ground arith

wake_stops : (stopped : Bool) (q : Queue) → wake stopped stops q ≡ q
unfolding wake
wake_stops stopped q = refl

wake_stale :
    (stopped : Bool) (i : ℕ) (item : QueuedTurn) (q : Queue)
    → (i == q.intent) ≡ false
    → wake stopped (steers i item) q ≡ q
unfolding wake
wake_stale true i item q h = elim (Bool-cases q.disposed) [
  | inl gone ↦ ground arith
  | inr kept ↦ ground arith
]
wake_stale false i item q h = refl

wake_silent :
    (stopped : Bool) (ws : List Waiter) (q : Queue)
    → AllSilent q.intent ws
    → wake_all stopped ws q ≡ q
unfolding wake_all
wake_silent stopped [] q h = refl
wake_silent stopped (stops ∷ ws) q h = rw (wake_stops stopped q) (wake_silent stopped ws q h)
wake_silent stopped (retries ∷ ws) q h = absurd h
wake_silent stopped (steers i item ∷ ws) q h =
    rw (wake_stale stopped i item q h.0) (wake_silent stopped ws q h.1)

settle_quiet :
    (stopped : Bool) (q : Queue)
    → AllSilent q.intent q.waiting
    → settle stopped q ≡ record q { stopping = none; waiting = [] }
unfolding settle
settle_quiet stopped q h =
    wake_silent stopped q.waiting (record q { stopping = none; waiting = [] }) h

-- A quiet queue stays so, and sends nothing new.
record StaysQuiet (q q' : Queue) : Type 0 where
  quiet : IsQuiet q'
  fewer : (r : Run) → In r q'.runs → In r q.runs

if-StaysQuiet :
    (b : Bool) {q p p' : Queue}
    → StaysQuiet q p
    → StaysQuiet q p'
    → StaysQuiet q (if b then p else p')
if-StaysQuiet true h g = h
if-StaysQuiet false h g = g

stop_goes_on-StaysQuiet :
    (threw confirmed : Bool) (stage : Option Stage) (q : Queue)
    → IsQuiet q
    → StaysQuiet q (stop_goes_on threw confirmed stage q)
unfolding stop_goes_on break succeed
stop_goes_on-StaysQuiet threw confirmed none q h = record { quiet = h; fewer = λ r i. i }
stop_goes_on-StaysQuiet true confirmed (some calling) q h =
    rw (settle_quiet false (record q { paused = true; steering = false; failed = true }) h.silent)
      (record { quiet = ground arith; fewer = λ r i. i })
stop_goes_on-StaysQuiet false confirmed (some calling) q h = record {
  quiet = ground arith;
  fewer = λ r i. i;
}
stop_goes_on-StaysQuiet threw confirmed (some (draining awaited)) q h =
    if-StaysQuiet (is_over awaited q.runs)
      (if-StaysQuiet (not q.disposed && q.needs_synchronization)
        (record { quiet = ground arith; fewer = λ r i. i })
        (rw (settle_quiet true (record q { needs_synchronization = false }) h.silent)
          (record { quiet = ground arith; fewer = λ r i. i })))
      (record { quiet = h; fewer = λ r i. i })
stop_goes_on-StaysQuiet true confirmed (some synchronizing) q h =
    rw (settle_quiet false (record q { paused = true; steering = false; failed = true }) h.silent)
      (record { quiet = ground arith; fewer = λ r i. i })
stop_goes_on-StaysQuiet false confirmed (some synchronizing) q h =
    rw (settle_quiet true (record q { needs_synchronization = false }) h.silent)
      (record { quiet = ground arith; fewer = λ r i. i })

take_run-In :
    (id : ℕ) (runs : List Run) (run : Run) (others : List Run)
    → take_run id runs ≡ some (run, others)
    → (r : Run) → In r others
    → In r runs
unfolding take_run
take_run-In id [] run others e r i = absurd (cc)
take_run-In id (x ∷ rest) run others e r i = elim (Bool-cases (x.run_id == id)) [
  | inl same ↦ let e' = rw (same, take_run) at e in let all : rest ≡ others = cc in there (rw all i)
  | inr other ↦ elim (Option-cases (take_run id rest)) [
    | inl missing ↦ let e' = rw (other, take_run, missing) at e in absurd (cc)
    | inr ((found, left), there_is) ↦
        let e' = rw (other, take_run, there_is) at e in
        let all : others ≡ x ∷ left = cc in
        elim (In-cons (rw all at i)) [
          | inl same ↦ rw same here
          | inr j ↦ there (take_run-In id rest found left there_is r j)
        ]
  ]
]

run_ended_quiet :
    (threw : Bool) (run : Run) (others : List Run) (q : Queue)
    → q.paused ≡ true
    → ((run_ended threw run others q).paused ≡ true)
      × ((run_ended threw run others q).runs ≡ others)
      × ((run_ended threw run others q).waiting ≡ q.waiting)
      × ((run_ended threw run others q).intent ≡ q.intent)
unfolding run_ended drain
run_ended_quiet true run others q p = ground arith
run_ended_quiet false run others q p = ground arith

run_ended-IsQuiet :
    (threw : Bool) (run : Run) (others : List Run) (q : Queue)
    → IsQuiet q
    → IsQuiet (run_ended threw run others q)
run_ended-IsQuiet threw run others q h =
    let (p, r, w, n) = run_ended_quiet threw run others q h.paused in
    record { paused = p; silent = rw (w, n) h.silent }

runs_ended :
    (threw : Bool) (run : Run) (others : List Run) (q : Queue)
    → IsQuiet q
    → (run_ended threw run others q).runs ≡ others
runs_ended threw run others q h = (run_ended_quiet threw run others q h.paused).1

end_run-StaysQuiet :
    (threw : Bool) (id : ℕ) (q : Queue) → IsQuiet q → StaysQuiet q (end_run threw id q)
unfolding end_run run_ended
end_run-StaysQuiet threw id q h = elim (Option-cases (take_run id q.runs)) [
  | inl missing ↦ rw (missing, end_run) (record { quiet = h; fewer = λ r i. i })
  | inr ((run, others), found) ↦
      rw (found, end_run)
        (record {
          quiet = run_ended-IsQuiet threw run others q h;
          fewer = λ r i.
              take_run-In id q.runs run others found r (rw (runs_ended threw run others q h) at i);
        })
]

submit_runs : (input : TurnInput) (q : Queue) → q.paused ≡ true → (submit input q).runs ≡ q.runs
unfolding submit drain
submit_runs input q p = ground arith

step-StaysQuiet : (e : Event) (q : Queue) → IsPassive e → IsQuiet q → StaysQuiet q (step e q)
unfolding step submit remove drain
step-StaysQuiet (submits input) q p h = record {
  quiet = ground arith;
  fewer = λ r i. rw (submit_runs input q h.paused) at i;
}
step-StaysQuiet (removes id) q p h = record { quiet = ground arith; fewer = λ r i. i }
step-StaysQuiet (changes_status status) q p h = record { quiet = ground arith; fewer = λ r i. i }
step-StaysQuiet (run_ends threw id) q p h = end_run-StaysQuiet threw id q h
step-StaysQuiet (stop_continues threw confirmed) q p h =
    stop_goes_on-StaysQuiet threw confirmed q.stopping q h
step-StaysQuiet (steers_with input) q p h = absurd p
step-StaysQuiet (steers_queued id) q p h = absurd p
step-StaysQuiet resumes q p h = absurd p
step-StaysQuiet reconnects q p h = absurd p
step-StaysQuiet stops_all q p h = absurd p
step-StaysQuiet retries_last q p h = absurd p
step-StaysQuiet regenerates q p h = absurd p
step-StaysQuiet disposes q p h = absurd p

run_events-fewer :
    (events : List Event) (q : Queue)
    → AllPassive events
    → IsQuiet q
    → (r : Run) → In r (run_events events q).runs
    → In r q.runs
unfolding run_events
run_events-fewer [] q p h r i = i
run_events-fewer (e ∷ rest) q p h r i =
    let stays = step-StaysQuiet e q p.0 h in
    stays.fewer r (run_events-fewer rest (step e q) p.1 stays.quiet r i)

-- If no retry waits for a stop and no waiting steer has a later intent than the present, then
-- after stop every run under way was under way before it, through any turns handed in or removed,
-- changes of the chat's status, ends of runs and answers to the stop.
pub stop_holds :
    (q : Queue) (events : List Event) (r : Run)
    → AllBelow q.intent q.waiting
    → HasNoRetry q.waiting
    → AllPassive events
    → In r (run_events events (stop q)).runs
    → In r q.runs
stop_holds q events r below none_retries passive i =
    rw (← stop_runs q)
      (run_events-fewer events (stop q) passive (stop-IsQuiet q below none_retries) r i)
