-- ===== src/WriteGate/Tests.antt =====
-- A write and a cleanup: the theorems at inputs that meet their hypotheses.
use codeberg.Base.{◌≡◌, false, List, [], ◌∷◌, refl}
use codeberg.Text.{codes}
use codeberg.WriteGate.{
  initial, busy, acquire_as, acquire, request_at, put_at, response_ends, route_ends, Event, arrives,
  responds, routes, step, steps,
}
use codeberg.WriteGate.Counts.{count}
use codeberg.WriteGate.Exclusion.{IsExact, NeverBoth, gate-IsExact, gate_reopens}

-- A write whose response ends first, a cleanup that is refused, and one that is admitted then.
abbrev events : List Event
events =
    arrives (codes "PUT") (codes "/api/settings") false false
    ∷ responds 0
    ∷ arrives (codes "POST") (codes "/api/settings/cleanup") false false
    ∷ routes 0
    ∷ arrives (codes "POST") (codes "/api/settings/cleanup") false false
    ∷ routes 1
    ∷ responds 1
    ∷ []

gate-IsExact_example : IsExact (steps events initial) × NeverBoth (steps events initial).requests
gate-IsExact_example = gate-IsExact events

gate_reopens_example : busy false (steps events initial) ≡ false
unfolding steps step acquire acquire_as request_at put_at response_ends route_ends count
gate_reopens_example = gate_reopens events refl
