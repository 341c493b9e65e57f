-- ===== src/PromptCache/Breakpoints.antt =====
-- A conversation has at most two breakpoints, however many it had.
use codeberg.Base.{
  ℕ, suc, ◌+◌, ◌≤◌, ◌≡◌, ◌==◌, if◌then◌else◌, is_some, Bool, true, false, Option, none, some, List,
  [], ◌∷◌, length, map, arith, refl, Option-cases, inl, inr, leb,
}
use codeberg.Text.{Text}
use codeberg.PromptCache.{
  anthropic, Role, AnthropicOptions, ProviderOptions, ModelMessage, with_cache_breakpoint,
  cleared_options, cleared, without_cache_breakpoint, previous_step, is_at, is_target, mark_from,
  with_conversation_cache,
}

abbrev pub has_control : Option AnthropicOptions → Bool
has_control none = false
has_control (some options) = is_some options.cache_control

abbrev pub has_breakpoint_in : Option ProviderOptions → Bool
has_breakpoint_in none = false
has_breakpoint_in (some options) = has_control options.anthropic

abbrev pub digit : Bool → ℕ
digit true = 1
digit false = 0

abbrev pub has_breakpoint : ModelMessage → Bool
has_breakpoint message = has_breakpoint_in message.provider_options

unfoldable pub breakpoints : List ModelMessage → ℕ
breakpoints [] = 0
breakpoints (message ∷ rest) = digit (has_breakpoint message) + breakpoints rest

cleared_options-has_breakpoint :
    (rest others : List Text) → has_breakpoint_in (cleared_options rest others) ≡ false
cleared_options-has_breakpoint [] [] = refl
cleared_options-has_breakpoint [] (name ∷ others) = refl
cleared_options-has_breakpoint (name ∷ rest) others = refl

cleared-has_breakpoint :
    (options : Option ProviderOptions) → has_breakpoint_in (cleared options) ≡ false
cleared-has_breakpoint none = refl
cleared-has_breakpoint (some options) = elim (Option-cases options.anthropic) [
  | inl absent ↦ rw (absent, absent) refl
  | inr (chosen, present) ↦ elim (Option-cases chosen.cache_control) [
    | inl clear ↦ rw (present, clear, present, clear) refl
    | inr (control, set) ↦
        rw (present, set) (cleared_options-has_breakpoint chosen.rest options.others)
  ]
]

-- What is said of a message apart from the options.
abbrev pub body : ModelMessage → Role × Text
body message = (message.role, message.content)

-- The targets from a position on.
abbrev room : ℕ → ℕ → ℕ
room i last = digit (leb i last)

abbrev room_before : ℕ → Option ℕ → ℕ
room_before i none = 0
room_before i (some at) = room i at

room_step : (i last : ℕ) → digit (last == i) + room (suc i) last ≤ room i last
room_step i last = ground arith

room_before_step :
    (i : ℕ) (previous : Option ℕ)
    → digit (is_at i previous) + room_before (suc i) previous ≤ room_before i previous
room_before_step i none = omega arith
room_before_step i (some at) = room_step i at

mark_digit :
    (target : Bool) (message : ModelMessage)
    → has_breakpoint
        (if target then with_cache_breakpoint message else without_cache_breakpoint message)
      ≡ target
unfolding with_cache_breakpoint without_cache_breakpoint
mark_digit true message = elim (Option-cases message.provider_options) [
  | inl absent ↦ rw absent refl
  | inr (options, present) ↦ elim (Option-cases options.anthropic) [
    | inl no_own ↦ rw (present, no_own) refl
    | inr (chosen, own) ↦ rw (present, own) refl
  ]
]
mark_digit false message = cleared-has_breakpoint message.provider_options

target_bound :
    (last : ℕ) (previous : Option ℕ) (i : ℕ) (message : ModelMessage)
    → digit (is_target last previous i message) ≤ digit (last == i) + digit (is_at i previous)
target_bound last previous i message = ground arith

breakpoints-mark_from :
    (last : ℕ) (previous : Option ℕ) (i : ℕ) (messages : List ModelMessage)
    → breakpoints (mark_from last previous i messages) ≤ room i last + room_before i previous
unfolding breakpoints mark_from
breakpoints-mark_from last previous i [] = omega arith
breakpoints-mark_from last previous i (message ∷ rest) =
    rw (mark_digit (is_target last previous i message) message) (
      omega (
        arith,
        target_bound last previous i message,
        room_step i last,
        room_before_step i previous,
        breakpoints-mark_from last previous (suc i) rest,
      ))

mark_body :
    (target : Bool) (message : ModelMessage)
    → body (if target then with_cache_breakpoint message else without_cache_breakpoint message)
      ≡ body message
unfolding with_cache_breakpoint without_cache_breakpoint
mark_body true message = refl
mark_body false message = refl

map-mark_from :
    (last : ℕ) (previous : Option ℕ) (i : ℕ) (messages : List ModelMessage)
    → map body (mark_from last previous i messages) ≡ map body messages
unfolding mark_from
map-mark_from last previous i [] = refl
map-mark_from last previous i (message ∷ rest) =
    rw
      (
        mark_body (is_target last previous i message) message,
        map-mark_from last previous (suc i) rest,
      )
      refl

room_one : (last : ℕ) → room 0 last ≤ 1
room_one last = ground arith

room_before_one : (previous : Option ℕ) → room_before 0 previous ≤ 1
room_before_one none = omega arith
room_before_one (some at) = room_one at

-- For a model with breakpoints of its own, the messages of a conversation are given at most two,
-- whatever breakpoints they had, and keep their number, order, roles and contents.
pub with_conversation_cache-breakpoints :
    (messages : List ModelMessage)
    → (breakpoints (with_conversation_cache anthropic messages) ≤ 2)
      × (map body (with_conversation_cache anthropic messages) ≡ map body messages)
unfolding with_conversation_cache breakpoints
with_conversation_cache-breakpoints [] = (omega arith, refl)
with_conversation_cache-breakpoints (message ∷ rest) =
    let last = length rest in
    let previous = previous_step 0 none (message ∷ rest) in
    (
      omega (
        arith,
        breakpoints-mark_from last previous 0 (message ∷ rest),
        room_one last,
        room_before_one previous,
      ),
      map-mark_from last previous 0 (message ∷ rest),
    )
