-- ===== src/RequestBudget/Split.antt =====
-- Which messages are compacted: `splitRequest` and `lastRole` of
-- agent/src/core/request-budget/compact.ts.
pub mod Laws
use codeberg.Base.{
  ℕ, zero, suc, ◌+◌, ◌-◌, ltb, leb, if◌then◌else◌, Bool, true, false, Option, none, some, List, [],
  ◌∷◌, ◌++◌, length, take, drop,
}
use codeberg.RequestBudget.Estimate.{Role, user, assistant, same_role, Message, messages_tokens}

pub record Split : Type 0 where
  pub older : List Message
  pub recent : List Message
  pub tail : ℕ
  -- The position of the user message that is kept.
  pub preserve : Option ℕ

abbrev pub later : Bool → Option ℕ → Option ℕ
later here (some i) = some (suc i)
later true none = some 0
later false none = none

-- The last message of a role, `none` where the source gives -1.
unfoldable pub last_role : Role → List Message → Option ℕ
last_role role [] = none
last_role role (message ∷ rest) = later (same_role message.role role) (last_role role rest)

abbrev pub from_user : ℕ → List Message → Split
from_user i body = record {
  older = take i body;
  recent = drop i body;
  tail = length (drop i body);
  preserve = none;
}

-- The steps between the user message at `i` and the assistant message at `j` are compacted.
abbrev pub around_user : ℕ → ℕ → List Message → Split
around_user i j body = record {
  older = take i body ++ drop (suc i) (take j body);
  recent = take 1 (drop i body) ++ drop j body;
  tail = length body - j;
  preserve = some i;
}

unfoldable pub split_at : ℕ → Option ℕ → List Message → ℕ → Split
split_at i none body allowance = from_user i body
split_at i (some j) body allowance =
    if ltb (messages_tokens (drop i body) + 128) allowance
    then from_user i body
    else if leb j i
    then from_user i body
    else around_user i j body

unfoldable pub split_request : List Message → ℕ → Split
split_request body allowance = elim (last_role user body) [
  | none ↦ record { older = []; recent = body; tail = length body; preserve = none }
  | some i ↦ split_at i (last_role assistant body) body allowance
]
