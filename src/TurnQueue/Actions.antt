-- ===== src/TurnQueue/Actions.antt =====
-- The methods of TurnQueue, each up to its first wait.
use codeberg.Base.{
  ℕ, ◌+◌, ◌==◌, if◌then◌else◌, ◌&&◌, ◌||◌, not, is_some, Bool, true, false, Option, none, some,
  List, [], ◌∷◌, ◌++◌, keep_if, find_first,
}
use codeberg.TurnQueue.State.{
  TurnInput, QueuedTurn, calling, Waiter, stops, retries, steers, Queue, is_error, is_generating,
  is_blank,
}

unfoldable pub start : Option QueuedTurn → Queue → Queue
start item q = record q {
  active = some q.next;
  runs = (record { run_id = q.next; item = item }) ∷ q.runs;
  next = q.next + 1;
}

abbrev pub start_first : List QueuedTurn → Queue → Queue
start_first [] q = q
start_first (item ∷ rest) q = start (some item) (record q { items = rest })

unfoldable pub drain : Queue → Queue
drain q =
    if q.disposed || is_some q.active || q.paused || q.steering
    then q
    else if is_generating q.status || is_error q.status
    then q
    else start_first q.items q

unfoldable pub submit : TurnInput → Queue → Queue
submit input q =
    if q.disposed || is_blank input
    then q
    else drain (record q {
      items = q.items ++ (record { id = q.next; input = input }) ∷ [];
      next = q.next + 1;
    })

abbrev pub is_other : ℕ → QueuedTurn → Bool
is_other id item = not (item.id == id)

unfoldable pub remove : ℕ → Queue → Queue
remove id q = record q { items = keep_if (is_other id) q.items }

unfoldable pub resume : Queue → Queue
resume q =
    if is_error q.status || is_some q.stopping || q.needs_synchronization
    then q
    else drain (record q { paused = false; failed = false })

unfoldable pub reconnect : Queue → Queue
reconnect q = if q.disposed || is_some q.active then q else start none q

-- `stopActive`: one who waits joins a stop under way, or begins one.
unfoldable pub stop_active : Waiter → Queue → Queue
stop_active waiter q =
    if is_some q.stopping then record q { waiting = q.waiting ++ waiter ∷ [] } else record q {
      waiting = q.waiting ++ waiter ∷ [];
      stopping = some calling;
      needs_synchronization = q.remote;
    }

unfoldable pub stop : Queue → Queue
stop q = stop_active stops (record q { intent = q.intent + 1; paused = true; steering = false })

unfoldable pub steer : TurnInput → Queue → Queue
steer input q =
    let item : QueuedTurn = record { id = q.next; input = input } in
    if q.disposed || q.steering || is_blank input
    then q
    else stop_active (steers (q.intent + 1) item) (record q {
      intent = q.intent + 1;
      next = q.next + 1;
      paused = true;
      steering = true;
      items = item ∷ q.items;
    })

abbrev pub has_id : ℕ → QueuedTurn → Bool
has_id id item = item.id == id

unfoldable pub steer_queued : ℕ → Queue → Queue
steer_queued id q = elim (find_first (has_id id) q.items) [
  | none ↦ q
  | some item ↦ if q.steering then q else steer item.input (remove id q)
]

abbrev pub is_filled : List QueuedTurn → Bool
is_filled [] = false
is_filled (item ∷ rest) = true

unfoldable pub retry : Queue → Queue
retry q =
    let next = record q { paused = false; failed = false } in
    if q.disposed || is_some q.active || is_some q.stopping
    then q
    else if q.needs_synchronization
    then stop_active retries q
    else if q.failed && is_filled q.items
    then drain next
    else start none next

unfoldable pub regenerate : Queue → Queue
regenerate q =
    if q.disposed || is_some q.active || is_some q.stopping || q.needs_synchronization
    then q
    else if is_generating q.status
    then q
    else start none (record q { paused = false; failed = false })

unfoldable pub dispose : Queue → Queue
dispose q = record q {
  disposed = true;
  intent = q.intent + 1;
  items = [];
  paused = true;
  steering = false;
}
