-- ===== src/WriteGate.antt =====
-- The gate of writing requests: agent/src/web/server/write-gate.ts.
--
-- A request is its two tests, `write` and `cleanup`, and the flags of `trackWrite`; requests are
-- numbered in the order of their admission. Whether the resources are busy and whether a search is
-- under way are Booleans that an admission reads. A response finishes by `finish` or by `close`; the
-- server calls the function that `acquire` returns once.
pub mod Counts
pub mod Exclusion
mod Tests
use codeberg.Base.{
  ℕ, zero, suc, ◌-◌, ltb, if◌then◌else◌, not, ◌&&◌, ◌||◌, Bool, true, false, Option, none, some,
  List, [], ◌∷◌, ◌++◌,
}
use codeberg.Text.{Text, codes, same_text}

abbrev pub is_cleanup : Text → Text → Bool
is_cleanup method path =
    same_text method (codes "POST") && same_text path (codes "/api/settings/cleanup")

abbrev pub is_reading : Text → Bool
is_reading method =
    same_text method (codes "GET")
    || same_text method (codes "HEAD")
    || same_text method (codes "OPTIONS")

abbrev pub is_write : Text → Text → Bool
is_write method path = not (is_reading method) && not (is_cleanup method path)

-- An admitted request.
pub record Request : Type 0 where
  pub write : Bool
  pub cleanup : Bool
  pub route_finished : Bool
  pub response_finished : Bool
  pub released : Bool

pub record RequestWriteGate : Type 0 where
  pub active_writes : ℕ
  pub cleanup_requested : Bool
  pub requests : List Request

abbrev pub initial : RequestWriteGate
initial = record { active_writes = 0; cleanup_requested = false; requests = [] }

abbrev pub busy : Bool → RequestWriteGate → Bool
busy resources gate = ltb 0 gate.active_writes || gate.cleanup_requested || resources

abbrev pub admitted : Bool → Bool → Request
admitted write cleanup = record {
  write = write;
  cleanup = cleanup;
  route_finished = false;
  response_finished = false;
  released = false;
}

-- The gate after it, and whether the request was admitted.
unfoldable pub acquire_as : Bool → Bool → Bool → Bool → RequestWriteGate → RequestWriteGate × Bool
acquire_as write cleanup resources searching gate =
    let busy_write = write && (resources || gate.cleanup_requested) in
    let busy_cleanup =
      cleanup && (ltb 0 gate.active_writes || gate.cleanup_requested || searching) in
    if busy_write || busy_cleanup then (gate, false) else (
      record {
        active_writes = if write then suc gate.active_writes else gate.active_writes;
        cleanup_requested = cleanup || gate.cleanup_requested;
        requests = gate.requests ++ admitted write cleanup ∷ [];
      },
      true,
    )

unfoldable pub acquire : Text → Text → Bool → Bool → RequestWriteGate → RequestWriteGate × Bool
acquire method path resources searching gate =
    acquire_as (is_write method path) (is_cleanup method path) resources searching gate

-- `releaseWrite`
abbrev pub may_release : Request → Bool
may_release r = r.write && not r.released && r.route_finished && r.response_finished

abbrev pub released_if_done : Request → Request
released_if_done r = if may_release r then record r { released = true } else r

abbrev pub with_response : Request → Request
with_response r = record r { response_finished = true }

abbrev pub with_route : Request → Request
with_route r = record r { route_finished = true }

unfoldable pub request_at : ℕ → List Request → Option Request
request_at i [] = none
request_at zero (r ∷ rest) = some r
request_at (suc i) (r ∷ rest) = request_at i rest

unfoldable pub put_at : ℕ → Request → List Request → List Request
put_at i new [] = []
put_at zero new (r ∷ rest) = new ∷ rest
put_at (suc i) new (r ∷ rest) = r ∷ put_at i new rest

abbrev pub released_writes : Request → ℕ → ℕ
released_writes r writes = if may_release r then writes - 1 else writes

-- What a flag that is set makes of the request and of the count.
abbrev pub settle : ℕ → Request → RequestWriteGate → RequestWriteGate
settle i r gate = record gate {
  active_writes = released_writes r gate.active_writes;
  requests = put_at i (released_if_done r) gate.requests;
}

unfoldable pub response_ends : ℕ → RequestWriteGate → RequestWriteGate
response_ends i gate = elim (request_at i gate.requests) [
  | none ↦ gate
  | some r ↦ settle i (with_response r) gate
]

abbrev pub after_route : ℕ → Request → RequestWriteGate → RequestWriteGate
after_route i r gate = record (settle i (with_route r) gate) {
  cleanup_requested = not r.cleanup && gate.cleanup_requested;
}

-- The function that `acquire` returns.
unfoldable pub route_ends : ℕ → RequestWriteGate → RequestWriteGate
route_ends i gate = elim (request_at i gate.requests) [
  | none ↦ gate
  | some r ↦ if r.route_finished then gate else after_route i r gate
]

pub data Event : Type 0 where
  arrives : Text → Text → Bool → Bool → Event
  responds routes : ℕ → Event

unfoldable pub step : Event → RequestWriteGate → RequestWriteGate
step (arrives method path resources searching) gate =
    (acquire method path resources searching gate).0
step (responds i) gate = response_ends i gate
step (routes i) gate = route_ends i gate

unfoldable pub steps : List Event → RequestWriteGate → RequestWriteGate
steps [] gate = gate
steps (e ∷ es) gate = steps es (step e gate)
