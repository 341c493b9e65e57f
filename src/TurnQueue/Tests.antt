-- ===== src/TurnQueue/Tests.antt =====
-- A queue with a few turns: the theorems of the turn queue at inputs that meet their hypotheses, and
-- runs of its events.
use codeberg.Base.{◌≡◌, ◌≤◌, true, false, some, List, [], ◌∷◌, length, refl, In, here}
use codeberg.Text.{codes, trim, trim_start, trim_end, is_space}
use codeberg.TurnQueue.State.{ready, error, TurnInput, Queue, initial}
use codeberg.TurnQueue.Actions.{start, drain, submit, steer, stop_active, stop, reconnect}
use codeberg.TurnQueue.Events.{
  Event, submits, steers_with, run_ends, stop_continues, reconnects, changes_status, step, settle,
  succeed, wake, wake_all, stop_goes_on, take_run,
}
use codeberg.TurnQueue.Single.{IsTracked}
use codeberg.TurnQueue.Single.Steps.{here, next, one_run}
use codeberg.TurnQueue.Kept.{IsHeld, run_events, turn_kept}
use codeberg.TurnQueue.Paused.{stop_holds}

abbrev said : TurnInput
said = record { text = codes "go on"; files = 0 }

abbrev empty : Queue
empty = initial true true ready

-- The first turn is sent, the second waits.
abbrev busy : Queue
busy = step (submits said) (step (submits said) empty)

busy_test : (length busy.runs ≡ 1) × (length busy.items ≡ 1)
unfolding step submit drain start trim trim_start trim_end is_space
busy_test = (refl, refl)

one_run_example : (length busy.runs ≤ 1) × IsTracked busy.active busy.runs
one_run_example =
    one_run true true ready busy (next (submits said) (next (submits said) here tt) tt)

-- A stream that is resumed while a stop synchronizes runs beside the turn of the steer.
two_runs_test :
    length
      (run_events
        (steers_with said
          ∷ stop_continues false true
          ∷ stop_continues false true
          ∷ reconnects
          ∷ stop_continues false true
          ∷ [])
        empty).runs
    ≡ 2
unfolding run_events step steer stop_active stop_goes_on reconnect succeed settle wake_all wake
    start trim trim_start trim_end is_space take_run
two_runs_test = refl

-- The run of the first turn fails, and both turns wait.
abbrev failure : List Event
failure = changes_status error ∷ run_ends true 1 ∷ []

turn_kept_example : IsHeld 0 (run_events failure busy)
unfolding step submit drain start trim trim_start trim_end is_space
turn_kept_example = turn_kept 0 failure busy (tt, (refl, tt)) (record { somewhere = refl })

stop_holds_example :
    In (record { run_id = 1; item = some (record { id = 0; input = said }) }) busy.runs
unfolding step submit drain start trim trim_start trim_end is_space run_events stop stop_active
stop_holds_example =
    stop_holds busy (submits said ∷ [])
      (record { run_id = 1; item = some (record { id = 0; input = said }) }) tt tt (tt, tt) In.here
