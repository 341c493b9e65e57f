-- ===== src/TurnQueue/Events.antt =====
-- What follows the waits, and the events from outside. Those who wait for one stop go on in one
-- turn of the event loop, in the order in which they came.
use codeberg.Base.{
  ℕ, ◌==◌, if◌then◌else◌, ◌&&◌, ◌||◌, not, Bool, true, false, Option, none, some, List, [], ◌∷◌,
  keep_if,
}
use codeberg.TurnQueue.State.{
  ChatStatus, TurnInput, QueuedTurn, Run, Stage, calling, draining, synchronizing, Waiter, stops,
  retries, steers, Queue, is_error,
}
use codeberg.TurnQueue.Actions.{
  start, drain, submit, is_other, remove, resume, reconnect, stop, steer, steer_queued, retry,
  regenerate, dispose,
}

-- The rest of `steer`, `retry` and `stop` after `stopActive` gave `stopped`.
unfoldable pub wake : Bool → Waiter → Queue → Queue
wake stopped stops q = q
wake stopped retries q = if stopped && not q.disposed then resume q else q
wake stopped (steers intent item) q =
    if not stopped || q.disposed || not (intent == q.intent)
    then q
    else start (some item) (record q {
      paused = false;
      steering = false;
      failed = false;
      items = keep_if (is_other item.id) q.items;
    })

unfoldable pub wake_all : Bool → List Waiter → Queue → Queue
wake_all stopped [] q = q
wake_all stopped (waiter ∷ rest) q = wake_all stopped rest (wake stopped waiter q)

-- The end of `stopAndSynchronize`.
unfoldable pub settle : Bool → Queue → Queue
settle stopped q = wake_all stopped q.waiting (record q { stopping = none; waiting = [] })

unfoldable pub succeed : Queue → Queue
succeed q = settle true (record q { needs_synchronization = false })

unfoldable pub break : Queue → Queue
break q = settle false (record q { paused = true; steering = false; failed = true })

-- The `finally` of `run`.
abbrev pub finish : Queue → Queue
finish q = drain (record q { active = none })

abbrev pub again : Bool → Option QueuedTurn → List QueuedTurn → List QueuedTurn
again disposed none items = items
again disposed (some item) items = if disposed then items else item ∷ items

-- A run that returned, or threw.
unfoldable pub run_ended : Bool → Run → List Run → Queue → Queue
run_ended threw run others q =
    let left = record q { runs = others } in
    if threw
    then finish
        (record left { paused = true; failed = true; items = again q.disposed run.item q.items })
    else finish (record left { paused = q.paused || is_error q.status })

-- The first run with this id, and the others.
unfoldable pub take_run : ℕ → List Run → Option (Run × List Run)
take_run id [] = none
take_run id (run ∷ rest) = if run.run_id == id then some (run, rest) else (elim (take_run id rest) [
  | none ↦ none
  | some (found, others) ↦ some (found, run ∷ others)
])

unfoldable pub end_run : Bool → ℕ → Queue → Queue
end_run threw id q = elim (take_run id q.runs) [
  | none ↦ q
  | some (run, others) ↦ run_ended threw run others q
]

-- The run that a stop waits for is over.
abbrev pub is_over : Option ℕ → List Run → Bool
is_over none runs = true
is_over (some id) runs = elim (take_run id runs) [ none ↦ true | some found ↦ false ]

abbrev pub drained : Option ℕ → Queue → Queue
drained awaited q =
    if is_over awaited q.runs
    then if not q.disposed && q.needs_synchronization
      then record q { stopping = some synchronizing }
      else succeed q
    else q

-- Both `stop` calls answered; `confirmed` is false if the server said false.
abbrev pub answered : Bool → Queue → Queue
answered confirmed q = record q {
  needs_synchronization = confirmed && q.remote && q.synchronizes;
  stopping = some (draining q.active);
}

-- `stopAndSynchronize` goes on, where the call that it waits for answered `true`, for the stop
-- calls that the server did not say false, or threw.
unfoldable pub stop_goes_on : Bool → Bool → Option Stage → Queue → Queue
stop_goes_on threw confirmed none q = q
stop_goes_on threw confirmed (some calling) q = if threw then break q else answered confirmed q
stop_goes_on threw confirmed (some (draining awaited)) q = drained awaited q
stop_goes_on threw confirmed (some synchronizing) q = if threw then break q else succeed q

pub data Event : Type 0 where
  submits steers_with : TurnInput → Event
  removes steers_queued : ℕ → Event
  resumes reconnects stops_all retries_last regenerates disposes : Event
  changes_status : ChatStatus → Event
  run_ends : Bool → ℕ → Event
  stop_continues : Bool → Bool → Event

unfoldable pub step : Event → Queue → Queue
step (submits input) q = submit input q
step (steers_with input) q = steer input q
step (removes id) q = remove id q
step (steers_queued id) q = steer_queued id q
step resumes q = resume q
step reconnects q = reconnect q
step stops_all q = stop q
step retries_last q = retry q
step regenerates q = regenerate q
step disposes q = dispose q
step (changes_status status) q = record q { status = status }
step (run_ends threw id) q = end_run threw id q
step (stop_continues threw confirmed) q = stop_goes_on threw confirmed q.stopping q
