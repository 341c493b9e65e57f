-- ===== src/WriteGate/Exclusion.antt =====
-- The counts of the gate are exact, and the cleanup and the writes exclude each other.
use codeberg.Base.{
  ℕ, ◌+◌, ◌≤◌, ◌≡◌, ◌⊎◌, Bool-cases, not, ◌&&◌, ltb, Bool, false, List, [], ◌∷◌, arith, refl,
  Option-cases, inl, inr,
}
use codeberg.Text.{Text}
use codeberg.WriteGate.{
  is_write, is_cleanup, Request, RequestWriteGate, initial, busy, admitted, acquire_as, acquire,
  may_release, released_if_done, with_response, with_route, request_at, response_ends, route_ends,
  Event, arrives, responds, routes, step, steps,
}
use codeberg.WriteGate.Counts.{digit, count, count-append, count-put_at, count_mono, count_at}

abbrev pub is_open_write : Request → Bool
is_open_write r = r.write && not r.released

abbrev pub is_open_cleanup : Request → Bool
is_open_cleanup r = r.cleanup && not r.route_finished

-- A write whose route or response has not ended.
abbrev pub is_running_write : Request → Bool
is_running_write r = r.write && not (r.route_finished && r.response_finished)

-- A write that is released before both have ended.
abbrev pub is_early : Request → Bool
is_early r = r.released && not (r.route_finished && r.response_finished)

-- What the gate keeps to.
pub record IsExact (gate : RequestWriteGate) : Type 0 where
  pub writes : gate.active_writes ≡ count is_open_write gate.requests
  pub cleanups : digit gate.cleanup_requested ≡ count is_open_cleanup gate.requests
  pub exclusive : (gate.cleanup_requested && ltb 0 gate.active_writes) ≡ false
  pub none_left : count may_release gate.requests ≡ 0
  pub running : gate.active_writes ≡ count is_running_write gate.requests
  pub none_early : count is_early gate.requests ≡ 0

acquire_as-IsExact :
    (write cleanup resources searching : Bool) (gate : RequestWriteGate)
    → (write && cleanup) ≡ false
    → IsExact gate
    → IsExact (acquire_as write cleanup resources searching gate).0
unfolding acquire_as
acquire_as-IsExact write cleanup resources searching gate h k =
    let new = admitted write cleanup in
    let w = count-append is_open_write gate.requests new in
    let c = count-append is_open_cleanup gate.requests new in
    let m = count-append may_release gate.requests new in
    let n = count-append is_running_write gate.requests new in
    let l = count-append is_early gate.requests new in ground arith

response_ends-IsExact :
    (i : ℕ) (gate : RequestWriteGate) → IsExact gate → IsExact (response_ends i gate)
unfolding response_ends
response_ends-IsExact i gate k = elim (Option-cases (request_at i gate.requests)) [
  | inl missing ↦ rw (missing, response_ends) k
  | inr (r, found) ↦
      let new = released_if_done (with_response r) in
      let w = count-put_at is_open_write i new r gate.requests found in
      let c = count-put_at is_open_cleanup i new r gate.requests found in
      let m = count-put_at may_release i new r gate.requests found in
      let n = count-put_at is_running_write i new r gate.requests found in
      let l = count-put_at is_early i new r gate.requests found in
      let not_left = count_at may_release i r gate.requests found in
      let not_early = count_at is_early i r gate.requests found in
      rw (found, response_ends) (ground arith)
]

route_ends-IsExact : (i : ℕ) (gate : RequestWriteGate) → IsExact gate → IsExact (route_ends i gate)
unfolding route_ends
route_ends-IsExact i gate k = elim (Option-cases (request_at i gate.requests)) [
  | inl missing ↦ rw (missing, route_ends) k
  | inr (r, found) ↦
      let new = released_if_done (with_route r) in
      let w = count-put_at is_open_write i new r gate.requests found in
      let c = count-put_at is_open_cleanup i new r gate.requests found in
      let m = count-put_at may_release i new r gate.requests found in
      let n = count-put_at is_running_write i new r gate.requests found in
      let l = count-put_at is_early i new r gate.requests found in
      let not_left = count_at may_release i r gate.requests found in
      let not_early = count_at is_early i r gate.requests found in
      rw (found, route_ends) (ground arith)
]

kinds_differ : (method path : Text) → (is_write method path && is_cleanup method path) ≡ false
kinds_differ method path = ground arith

step-IsExact : (e : Event) (gate : RequestWriteGate) → IsExact gate → IsExact (step e gate)
unfolding step acquire
step-IsExact (arrives method path resources searching) gate k =
    acquire_as-IsExact (is_write method path) (is_cleanup method path) resources searching gate
      (kinds_differ method path) k
step-IsExact (responds i) gate k = response_ends-IsExact i gate k
step-IsExact (routes i) gate k = route_ends-IsExact i gate k

steps-IsExact : (es : List Event) (gate : RequestWriteGate) → IsExact gate → IsExact (steps es gate)
unfolding steps
steps-IsExact [] gate k = k
steps-IsExact (e ∷ es) gate k = steps-IsExact es (step e gate) (step-IsExact e gate k)

-- No cleanup is in its route, or no write's route or response goes on.
abbrev pub NeverBoth : List Request → Type 0
NeverBoth requests = (count is_open_cleanup requests ≡ 0) ⊎ (count is_running_write requests ≡ 0)

IsExact-NeverBoth : (gate : RequestWriteGate) → IsExact gate → NeverBoth gate.requests
IsExact-NeverBoth gate k = elim (Bool-cases gate.cleanup_requested) [
  | inl cleaning ↦ inr (ground arith)
  | inr idle ↦ inl (ground arith)
]

initial-IsExact : IsExact initial
unfolding count
initial-IsExact = record {
  writes = refl;
  cleanups = refl;
  exclusive = refl;
  none_left = refl;
  running = refl;
  none_early = refl;
}

-- After any requests, responses and ends of routes, the active writes of the gate are the admitted
-- writes whose route or response has not ended: none is released before both have, and none is
-- left to release after. The gate knows whether an admitted cleanup is in its route, of which
-- there is at most one, and never is a cleanup in its route while the route or the response of a
-- write goes on.
pub gate-IsExact :
    (es : List Event) → IsExact (steps es initial) × NeverBoth (steps es initial).requests
gate-IsExact es =
    let exact = steps-IsExact es initial initial-IsExact in
    (exact, IsExact-NeverBoth (steps es initial) exact)

-- A request that still runs or streams.
abbrev pub is_open : Request → Bool
is_open r = not (r.route_finished && r.response_finished)

open_write_bound :
    (r : Request) → digit (is_open_write r) ≤ digit (is_open r) + digit (may_release r)
open_write_bound r = ground arith

open_cleanup_bound :
    (r : Request) → digit (is_open_cleanup r) ≤ digit (is_open r) + digit (may_release r)
open_cleanup_bound r = ground arith

reopened :
    (gate : RequestWriteGate)
    → IsExact gate
    → count is_open gate.requests ≡ 0
    → busy false gate ≡ false
reopened gate k h =
    let w = count_mono is_open_write is_open may_release open_write_bound gate.requests in
    let c = count_mono is_open_cleanup is_open may_release open_cleanup_bound gate.requests in
    ground arith

-- Once every admitted request has ended its route and its response, in whatever order, the gate is
-- not busy, if the resources are not.
pub gate_reopens :
    (es : List Event)
    → count is_open (steps es initial).requests ≡ 0
    → busy false (steps es initial) ≡ false
gate_reopens es h = reopened (steps es initial) (gate-IsExact es).0 h
