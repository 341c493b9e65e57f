-- ===== src/TurnQueue/Kept.antt =====
-- No turn that was handed in is lost: it waits or is being sent, until it is sent, removed, or steered
-- with, or the queue is disposed of.
use codeberg.Base.{
  ℕ, ◌+◌, ◌==◌, ◌≡◌, inl, inr, if◌then◌else◌, ◌&&◌, ◌||◌, not, Bool, true, false, Option, none,
  some, List, [], ◌∷◌, ◌++◌, arith, refl, Bool-cases, Option-cases, keep_if, find_first,
  Option-cases,
}
use codeberg.TurnQueue.State.{
  TurnInput, QueuedTurn, Run, Stage, calling, draining, synchronizing, Waiter, stops, retries,
  steers, Queue, is_blank,
}
use codeberg.TurnQueue.Actions.{
  start, drain, submit, has_id, is_other, remove, resume, reconnect, stop_active, stop, steer,
  steer_queued, retry, regenerate, has_id,
}
use codeberg.TurnQueue.Events.{
  wake, wake_all, settle, succeed, break, run_ended, take_run, end_run, again, is_over,
  stop_goes_on, Event, submits, steers_with, removes, steers_queued, resumes, reconnects, stops_all,
  retries_last, regenerates, disposes, changes_status, run_ends, stop_continues, step,
}

abbrev pub among : ℕ → List QueuedTurn → Bool
among k [] = false
among k (item ∷ rest) = item.id == k || among k rest

abbrev pub is_turn : ℕ → Option QueuedTurn → Bool
is_turn k none = false
is_turn k (some item) = item.id == k

abbrev pub being_sent : ℕ → List Run → Bool
being_sent k [] = false
being_sent k (run ∷ rest) = is_turn k run.item || being_sent k rest

-- The turn with this id waits, or a run sends it.
pub record IsHeld (k : ℕ) (q : Queue) : Type 0 where
  pub somewhere : (among k q.items || being_sent k q.runs) ≡ true

abbrev pub ends_with_turn : ℕ → Option (Run × List Run) → Bool
ends_with_turn k none = false
ends_with_turn k (some (run, others)) = is_turn k run.item

-- The events that let a turn go: its removal, its replacement by a steer, the disposal of all, the
-- return of the run that sends it, and a failed run after the disposal.
abbrev pub Keeps : ℕ → Event → Queue → Type 0
Keeps k (removes id) q = (id == k) ≡ false
Keeps k (steers_queued id) q = (id == k) ≡ false
Keeps k disposes q = ⊥
Keeps k (run_ends true id) q = q.disposed ≡ false
Keeps k (run_ends false id) q = ends_with_turn k (take_run id q.runs) ≡ false
Keeps k _ q = Unit {0}

among-append : (k : ℕ) (l m : List QueuedTurn) → among k (l ++ m) ≡ (among k l || among k m)
among-append k [] m = refl
among-append k (item ∷ l) m = ground (arith, among-append k l m)

among-keep_if :
    (k id : ℕ) (l : List QueuedTurn)
    → (id == k) ≡ false
    → among k (keep_if (is_other id) l) ≡ among k l
among-keep_if k id [] h = refl
among-keep_if k id (item ∷ l) h = ground (arith, among-keep_if k id l h)

start-IsHeld : (k : ℕ) (item : Option QueuedTurn) {q : Queue} → IsHeld k q → IsHeld k (start item q)
unfolding start
start-IsHeld k item h = ground arith

drain-IsHeld : (k : ℕ) {q : Queue} → IsHeld k q → IsHeld k (drain q)
unfolding drain start
drain-IsHeld k h = ground arith

if-IsHeld :
    (k : ℕ) (b : Bool) {p q : Queue} → IsHeld k p → IsHeld k q → IsHeld k (if b then p else q)
if-IsHeld k true h g = h
if-IsHeld k false h g = g

submit-IsHeld : (k : ℕ) (input : TurnInput) {q : Queue} → IsHeld k q → IsHeld k (submit input q)
unfolding submit drain start
submit-IsHeld k input {q} h =
    let more = among-append k q.items ((record { id = q.next; input = input }) ∷ []) in
    let added : IsHeld k (record q {
      items = q.items ++ (record { id = q.next; input = input }) ∷ [];
      next = q.next + 1;
    }) =
      ground arith in
    if-IsHeld k (q.disposed || is_blank input) h (drain-IsHeld k added)

remove-IsHeld : (k id : ℕ) {q : Queue} → (id == k) ≡ false → IsHeld k q → IsHeld k (remove id q)
unfolding remove
remove-IsHeld k id {q} other h = let same = among-keep_if k id q.items other in ground arith

resume-IsHeld : (k : ℕ) {q : Queue} → IsHeld k q → IsHeld k (resume q)
unfolding resume drain start
resume-IsHeld k h = ground arith

reconnect-IsHeld : (k : ℕ) {q : Queue} → IsHeld k q → IsHeld k (reconnect q)
unfolding reconnect start
reconnect-IsHeld k h = ground arith

stop-IsHeld : (k : ℕ) {q : Queue} → IsHeld k q → IsHeld k (stop q)
unfolding stop stop_active
stop-IsHeld k h = ground arith

steer-IsHeld : (k : ℕ) (input : TurnInput) {q : Queue} → IsHeld k q → IsHeld k (steer input q)
unfolding steer stop_active
steer-IsHeld k input h = ground arith

steer_queued-IsHeld :
    (k id : ℕ) {q : Queue} → (id == k) ≡ false → IsHeld k q → IsHeld k (steer_queued id q)
unfolding steer_queued
steer_queued-IsHeld k id {q} other h = elim (Option-cases (find_first (has_id id) q.items)) [
  | inl missing ↦ rw (missing, steer_queued) h
  | inr (item, found) ↦
      rw (found, steer_queued)
        (if-IsHeld k q.steering h (steer-IsHeld k item.input (remove-IsHeld k id other h)))
]

retry-IsHeld : (k : ℕ) {q : Queue} → IsHeld k q → IsHeld k (retry q)
unfolding retry drain start stop_active
retry-IsHeld k h = ground arith

regenerate-IsHeld : (k : ℕ) {q : Queue} → IsHeld k q → IsHeld k (regenerate q)
unfolding regenerate start
regenerate-IsHeld k h = ground arith

-- A steer that goes on takes its turn from the waiting ones to its run.
wake-IsHeld :
    (k : ℕ) (stopped : Bool) (w : Waiter) {q : Queue} → IsHeld k q → IsHeld k (wake stopped w q)
unfolding wake start
wake-IsHeld k stopped stops h = h
wake-IsHeld k stopped retries {q} h = if-IsHeld k (stopped && not q.disposed) (resume-IsHeld k h) h
wake-IsHeld k stopped (steers i item) {q} h = elim (Bool-cases (item.id == k)) [
  | inl own ↦ ground arith
  | inr other ↦ let same = among-keep_if k item.id q.items other in ground arith
]

wake_all-IsHeld :
    (k : ℕ) (stopped : Bool) (ws : List Waiter) (q : Queue)
    → IsHeld k q
    → IsHeld k (wake_all stopped ws q)
unfolding wake_all
wake_all-IsHeld k stopped [] q h = h
wake_all-IsHeld k stopped (w ∷ ws) q h =
    wake_all-IsHeld k stopped ws (wake stopped w q) (wake-IsHeld k stopped w h)

settle-IsHeld : (k : ℕ) (stopped : Bool) {q : Queue} → IsHeld k q → IsHeld k (settle stopped q)
unfolding settle
settle-IsHeld k stopped {q} h =
    wake_all-IsHeld k stopped q.waiting _ (record { somewhere = h.somewhere })

stop_goes_on-IsHeld :
    (k : ℕ) (threw confirmed : Bool) (stage : Option Stage) {q : Queue}
    → IsHeld k q
    → IsHeld k (stop_goes_on threw confirmed stage q)
unfolding stop_goes_on break succeed
stop_goes_on-IsHeld k threw confirmed none h = h
stop_goes_on-IsHeld k true confirmed (some calling) h =
    settle-IsHeld k false (record { somewhere = h.somewhere })
stop_goes_on-IsHeld k false confirmed (some calling) h = record { somewhere = h.somewhere }
stop_goes_on-IsHeld k threw confirmed (some (draining awaited)) {q} h =
    if-IsHeld k (is_over awaited q.runs)
      (if-IsHeld k (not q.disposed && q.needs_synchronization) (record { somewhere = h.somewhere })
        (settle-IsHeld k true (record { somewhere = h.somewhere })))
      h
stop_goes_on-IsHeld k true confirmed (some synchronizing) h =
    settle-IsHeld k false (record { somewhere = h.somewhere })
stop_goes_on-IsHeld k false confirmed (some synchronizing) h =
    settle-IsHeld k true (record { somewhere = h.somewhere })

-- A run that is taken out takes its own turn and no other.
being_sent-take_run :
    (k id : ℕ) (runs : List Run) (run : Run) (others : List Run)
    → take_run id runs ≡ some (run, others)
    → being_sent k runs ≡ (is_turn k run.item || being_sent k others)
unfolding take_run
being_sent-take_run k id [] run others e = absurd (cc)
being_sent-take_run k id (r ∷ rest) run others e = elim (Option-cases (take_run id rest)) [
  | inl missing ↦ ground arith
  | inr ((found, left), there_is) ↦
      let ih = being_sent-take_run k id rest found left there_is in ground arith
]

among-again :
    (k : ℕ) (item : Option QueuedTurn) (items : List QueuedTurn)
    → among k (again false item items) ≡ (is_turn k item || among k items)
among-again k none items = refl
among-again k (some item) items = refl

threw-IsHeld :
    (k : ℕ) (run : Run) (others : List Run) (q : Queue)
    → q.disposed ≡ false
    → (among k q.items || is_turn k run.item || being_sent k others) ≡ true
    → IsHeld k (run_ended true run others q)
unfolding run_ended
threw-IsHeld k run others q d h =
    let back : among k (again q.disposed run.item q.items)
        ≡ (is_turn k run.item || among k q.items) =
      rw d (among-again k run.item q.items) in
    drain-IsHeld k (record { somewhere = ground arith })

returned-IsHeld :
    (k : ℕ) (run : Run) (others : List Run) (q : Queue)
    → (among k q.items || is_turn k run.item || being_sent k others) ≡ true
    → is_turn k run.item ≡ false
    → IsHeld k (run_ended false run others q)
unfolding run_ended
returned-IsHeld k run others q h other = drain-IsHeld k (record { somewhere = ground arith })

ended :
    (k : ℕ) (threw : Bool) (id : ℕ) (run : Run) (others : List Run) (q : Queue)
    → take_run id q.runs ≡ some (run, others)
    → Keeps k (run_ends threw id) q
    → (among k q.items || is_turn k run.item || being_sent k others) ≡ true
    → IsHeld k (run_ended threw run others q)
ended k true id run others q found keeps h = threw-IsHeld k run others q keeps h
ended k false id run others q found keeps h = returned-IsHeld k run others q h (rw found at keeps)

end_run-IsHeld :
    (k : ℕ) (threw : Bool) (id : ℕ) {q : Queue}
    → Keeps k (run_ends threw id) q
    → IsHeld k q
    → IsHeld k (end_run threw id q)
unfolding end_run
end_run-IsHeld k threw id {q} keeps h = elim (Option-cases (take_run id q.runs)) [
  | inl missing ↦ rw (missing, end_run) h
  | inr ((run, others), found) ↦
      let split = being_sent-take_run k id q.runs run others found in
      rw (found, end_run) (ended k threw id run others q found keeps (ground arith))
]

step-IsHeld : (k : ℕ) (e : Event) (q : Queue) → Keeps k e q → IsHeld k q → IsHeld k (step e q)
unfolding step
step-IsHeld k (submits input) q c h = submit-IsHeld k input h
step-IsHeld k (steers_with input) q c h = steer-IsHeld k input h
step-IsHeld k (removes id) q c h = remove-IsHeld k id c h
step-IsHeld k (steers_queued id) q c h = steer_queued-IsHeld k id c h
step-IsHeld k resumes q c h = resume-IsHeld k h
step-IsHeld k reconnects q c h = reconnect-IsHeld k h
step-IsHeld k stops_all q c h = stop-IsHeld k h
step-IsHeld k retries_last q c h = retry-IsHeld k h
step-IsHeld k regenerates q c h = regenerate-IsHeld k h
step-IsHeld k disposes q c h = absurd c
step-IsHeld k (changes_status status) q c h = record { somewhere = h.somewhere }
step-IsHeld k (run_ends threw id) q c h = end_run-IsHeld k threw id c h
step-IsHeld k (stop_continues threw confirmed) q c h =
    stop_goes_on-IsHeld k threw confirmed q.stopping h

unfoldable pub run_events : List Event → Queue → Queue
run_events [] q = q
run_events (e ∷ rest) q = run_events rest (step e q)

abbrev pub AllKeep : ℕ → List Event → Queue → Type 0
AllKeep k [] q = Unit {0}
AllKeep k (e ∷ rest) q = Keeps k e q × AllKeep k rest (step e q)

-- Through any sequence of events a turn that waits or is being sent still waits or is being sent,
-- unless it is removed or steered with, its run returns, the queue is disposed of, or a run fails
-- after that.
pub turn_kept :
    (k : ℕ) (events : List Event) (q : Queue)
    → AllKeep k events q
    → IsHeld k q
    → IsHeld k (run_events events q)
unfolding run_events
turn_kept k [] q c h = h
turn_kept k (e ∷ rest) q c h = turn_kept k rest (step e q) c.1 (step-IsHeld k e q c.0 h)
