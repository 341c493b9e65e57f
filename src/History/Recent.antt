-- ===== src/History/Recent.antt =====
-- Where the recent history starts that is kept word for word: agent/src/core/history-recent.ts.
pub mod Laws
use codeberg.Base.{
  ℕ, zero, suc, ◌+◌, ◌-◌, ◌/◌, ltb, ◌&&◌, if◌then◌else◌, Bool, true, false, Option, none, some,
  List, [], ◌∷◌, length, take, drop, min, max, get_elem?,
}
use codeberg.History.Messages.{Role, user, system, assistant, tool, ModelMessage, total_tokens}

abbrev pub max_recent_history_tokens : ℕ
max_recent_history_tokens = 15000

-- `messages.slice(from, to)` for `from <= to`.
abbrev pub slice : ℕ → ℕ → List ModelMessage → List ModelMessage
slice from to messages = drop from (take to messages)

abbrev pub is_user : Option ModelMessage → Bool
is_user none = false
is_user (some message) = elim message.role [ user ↦ true | _ ↦ false ]

-- The loop runs down from `from`, and stops above 0.
unfoldable pub exchange_start : List ModelMessage → ℕ → ℕ
exchange_start messages zero = 0
exchange_start messages (suc index) =
    if is_user (get_elem? messages (suc index)) then suc index else exchange_start messages index

-- `Math.floor(budget * RECENT_HISTORY_FRACTION)`, a quarter.
abbrev pub allowance : ℕ → ℕ
allowance budget = min max_recent_history_tokens (budget / 4)

-- The loop of `recentHistoryStart`; `fuel` bounds its rounds, and `start` falls in each.
unfoldable pub recent_from : List ModelMessage → ℕ → ℕ → ℕ → ℕ → ℕ
recent_from messages limit zero start tokens = start
recent_from messages limit (suc fuel) zero tokens = 0
recent_from messages limit (suc fuel) (suc before) tokens =
    let previous = exchange_start messages before in
    let size = total_tokens (slice previous (suc before) messages) in
    let next = recent_from messages limit fuel previous (tokens + size) in
    if ltb (suc before) (length messages) && ltb limit (tokens + size) then suc before else next

unfoldable pub recent_history_start : List ModelMessage → ℕ → Option ℕ → ℕ
recent_history_start messages budget (some keep_recent) =
    exchange_start messages (length messages - max 1 keep_recent)
recent_history_start messages budget none =
    recent_from messages (allowance budget) (length messages) (length messages) 0
