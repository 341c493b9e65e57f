-- ===== src/TurnQueue/Single.antt =====
-- No two turns are generated at once.
pub mod Laws
mod Waiting
pub mod Steps
use codeberg.Base.{
  ℕ, zero, suc, ◌+◌, ◌≤◌, ◌<◌, ◌==◌, ◌≡◌, ◌⊎◌, inl, inr, if◌then◌else◌, ◌&&◌, ◌||◌, not, is_some,
  Bool, true, false, Option, none, some, List, [], ◌∷◌, ◌++◌, arith, refl, Bool-cases,
}
use codeberg.TurnQueue.State.{
  ChatStatus, TurnInput, QueuedTurn, Run, Stage, calling, draining, synchronizing, Waiter, stops,
  retries, steers, Queue, initial,
}

-- The active run is the only one, or there is none.
abbrev pub IsTracked : Option ℕ → List Run → Type 0
IsTracked none [] = Unit {0}
IsTracked none (run ∷ rest) = ⊥
IsTracked (some id) [] = ⊥
IsTracked (some id) (run ∷ []) = run.run_id ≡ id
IsTracked (some id) (run ∷ (other ∷ rest)) = ⊥

abbrev pub StageFits : Option Stage → Option ℕ → Type 0
StageFits none active = Unit {0}
StageFits (some calling) active = Unit {0}
StageFits (some (draining awaited)) active = (active ≡ none) ⊎ (active ≡ awaited)
StageFits (some synchronizing) active = active ≡ none

-- The waiting steers of the present intent.
abbrev pub current : ℕ → List Waiter → ℕ
current intent [] = 0
current intent (stops ∷ rest) = current intent rest
current intent (retries ∷ rest) = current intent rest
current intent (steers i item ∷ rest) =
    if i == intent then suc (current intent rest) else current intent rest

abbrev pub AllBelow : ℕ → List Waiter → Type 0
AllBelow intent [] = Unit {0}
AllBelow intent (stops ∷ rest) = AllBelow intent rest
AllBelow intent (retries ∷ rest) = AllBelow intent rest
AllBelow intent (steers i item ∷ rest) = (i ≤ intent) × AllBelow intent rest

-- At most one steer waits, and while it does nothing is sent.
pub record IsOrderly (intent : ℕ) (steering : Bool) (waiting : List Waiter) : Type 0 where
  pub one : current intent waiting ≤ 1
  pub steered : 0 < current intent waiting → steering ≡ true
  pub below : AllBelow intent waiting

pub record IsSingle (q : Queue) : Type 0 where
  pub tracked : IsTracked q.active q.runs
  pub held : is_some q.stopping ≡ true → q.paused ≡ true
  pub lagging : q.needs_synchronization ≡ true → q.paused ≡ true
  pub idle : is_some q.stopping ≡ false → q.waiting ≡ []
  pub stage : StageFits q.stopping q.active
  pub orderly : IsOrderly q.intent q.steering q.waiting

pub initial-IsSingle :
    (remote synchronizes : Bool) (status : ChatStatus)
    → IsSingle (initial remote synchronizes status)
initial-IsSingle remote synchronizes status = ground arith
