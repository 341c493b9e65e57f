-- ===== src/TurnQueue/Single/Waiting.antt =====
-- Those who wait for a stop: joining them, and a new intent.
use codeberg.Base.{ℕ, ◌+◌, ◌≡◌, Bool, true, List, [], ◌∷◌, ◌++◌, arith, refl}
use codeberg.TurnQueue.State.{QueuedTurn, Waiter, stops, retries, steers}
use codeberg.TurnQueue.Single.{current, AllBelow, IsOrderly}

pub current_raised : (n : ℕ) (ws : List Waiter) → AllBelow n ws → current (n + 1) ws ≡ 0
current_raised n [] h = refl
current_raised n (stops ∷ ws) h = current_raised n ws h
current_raised n (retries ∷ ws) h = current_raised n ws h
current_raised n (steers i item ∷ ws) h = ground (arith, current_raised n ws h.1)

pub AllBelow-raised : (n : ℕ) (ws : List Waiter) → AllBelow n ws → AllBelow (n + 1) ws
AllBelow-raised n [] h = tt
AllBelow-raised n (stops ∷ ws) h = AllBelow-raised n ws h
AllBelow-raised n (retries ∷ ws) h = AllBelow-raised n ws h
AllBelow-raised n (steers i item ∷ ws) h = (omega arith, AllBelow-raised n ws h.1)

pub AllBelow-append :
    (n : ℕ) (ws vs : List Waiter) → AllBelow n ws → AllBelow n vs → AllBelow n (ws ++ vs)
AllBelow-append n [] vs h k = k
AllBelow-append n (stops ∷ ws) vs h k = AllBelow-append n ws vs h k
AllBelow-append n (retries ∷ ws) vs h k = AllBelow-append n ws vs h k
AllBelow-append n (steers i item ∷ ws) vs h k = (h.0, AllBelow-append n ws vs h.1 k)

pub current-append :
    (n : ℕ) (ws vs : List Waiter) → current n (ws ++ vs) ≡ current n ws + current n vs
current-append n [] vs = omega arith
current-append n (stops ∷ ws) vs = current-append n ws vs
current-append n (retries ∷ ws) vs = current-append n ws vs
current-append n (steers i item ∷ ws) vs = ground (arith, current-append n ws vs)

pub IsOrderly-raised :
    {n : ℕ} {steering : Bool} (ws : List Waiter) (now : Bool)
    → IsOrderly n steering ws
    → IsOrderly (n + 1) now ws
IsOrderly-raised {n} ws now o = record {
  one = omega (arith, current_raised n ws o.below);
  steered = λ h. absurd (omega (arith, current_raised n ws o.below));
  below = AllBelow-raised n ws o.below;
}

pub IsOrderly-steers :
    {n : ℕ} {steering : Bool} (ws : List Waiter) (item : QueuedTurn)
    → IsOrderly n steering ws
    → IsOrderly (n + 1) true (ws ++ steers (n + 1) item ∷ [])
IsOrderly-steers {n} ws item o = record {
  one =
      ground
        (arith, current-append (n + 1) ws (steers (n + 1) item ∷ []), current_raised n ws o.below);
  steered = λ h. refl;
  below =
      AllBelow-append (n + 1) ws (steers (n + 1) item ∷ []) (AllBelow-raised n ws o.below)
        (omega arith, tt);
}

pub IsOrderly-stops :
    {n : ℕ} {steering : Bool} (ws : List Waiter)
    → IsOrderly n steering ws
    → IsOrderly n steering (ws ++ stops ∷ [])
IsOrderly-stops {n} ws o = record {
  one = omega (arith, o, current-append n ws (stops ∷ []));
  steered = λ h. o.steered (omega (arith, current-append n ws (stops ∷ [])));
  below = AllBelow-append n ws (stops ∷ []) o.below tt;
}
