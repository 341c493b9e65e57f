-- ===== src/TurnQueue/Single/Laws.antt =====
-- Each method keeps the runs single.
use codeberg.Base.{
  ℕ, ◌≡◌, inl, inr, if◌then◌else◌, Bool, true, false, Option, none, [], ◌∷◌, ◌++◌, arith,
  Option-cases, find_first,
}
use codeberg.TurnQueue.State.{TurnInput, QueuedTurn, Waiter, Queue}
use codeberg.TurnQueue.Actions.{
  start, drain, submit, has_id, remove, resume, reconnect, stop_active, stop, steer, steer_queued,
  retry, regenerate, dispose,
}
use codeberg.TurnQueue.Single.{IsOrderly, IsSingle}
use codeberg.TurnQueue.Single.Waiting.{IsOrderly-raised, IsOrderly-steers, IsOrderly-stops}

pub start-IsSingle :
    {q : Queue} (item : Option QueuedTurn)
    → IsSingle q
    → q.active ≡ none
    → q.stopping ≡ none
    → IsSingle (start item q)
unfolding start
start-IsSingle item s a b = ground arith

pub drain-IsSingle : {q : Queue} → IsSingle q → IsSingle (drain q)
unfolding drain start
drain-IsSingle s = ground arith

pub submit-IsSingle : {q : Queue} (input : TurnInput) → IsSingle q → IsSingle (submit input q)
unfolding submit drain start
submit-IsSingle input s = ground arith

pub remove-IsSingle : {q : Queue} (id : ℕ) → IsSingle q → IsSingle (remove id q)
unfolding remove
remove-IsSingle id s = ground arith

pub resume-IsSingle : {q : Queue} → IsSingle q → IsSingle (resume q)
unfolding resume drain start
resume-IsSingle s = ground arith

pub reconnect-IsSingle : {q : Queue} → IsSingle q → q.stopping ≡ none → IsSingle (reconnect q)
unfolding reconnect start
reconnect-IsSingle s free = ground arith

pub retry-IsSingle : {q : Queue} → IsSingle q → IsSingle (retry q)
unfolding retry drain start stop_active
retry-IsSingle s = ground arith

pub regenerate-IsSingle : {q : Queue} → IsSingle q → IsSingle (regenerate q)
unfolding regenerate start
regenerate-IsSingle s = ground arith

pub stop_active-IsSingle :
    {q : Queue} (waiter : Waiter)
    → IsSingle q
    → q.paused ≡ true
    → IsOrderly q.intent q.steering (q.waiting ++ waiter ∷ [])
    → IsSingle (stop_active waiter q)
unfolding stop_active
stop_active-IsSingle waiter s p o = ground arith

pub stop-IsSingle : {q : Queue} → IsSingle q → IsSingle (stop q)
unfolding stop stop_active
stop-IsSingle {q} s =
    let raised = IsOrderly-stops q.waiting (IsOrderly-raised q.waiting false s.orderly) in
    ground arith

pub steer-IsSingle : {q : Queue} (input : TurnInput) → IsSingle q → IsSingle (steer input q)
unfolding steer stop_active
steer-IsSingle {q} input s =
    let joined = IsOrderly-steers q.waiting (record { id = q.next; input = input }) s.orderly in
    ground arith

pub if-IsSingle : (b : Bool) {p q : Queue} → IsSingle p → IsSingle q → IsSingle (if b then p else q)
if-IsSingle true s t = s
if-IsSingle false s t = t

pub steer_queued-IsSingle : {q : Queue} (id : ℕ) → IsSingle q → IsSingle (steer_queued id q)
unfolding steer_queued
steer_queued-IsSingle {q} id s = elim (Option-cases (find_first (has_id id) q.items)) [
  | inl missing ↦ rw (missing, steer_queued) s
  | inr (item, found) ↦
      rw (found, steer_queued)
        (if-IsSingle q.steering s (steer-IsSingle item.input (remove-IsSingle id s)))
]

pub dispose-IsSingle : {q : Queue} → IsSingle q → IsSingle (dispose q)
unfolding dispose
dispose-IsSingle {q} s = let raised = IsOrderly-raised q.waiting false s.orderly in ground arith
