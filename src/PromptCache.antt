-- ===== src/PromptCache.antt =====
-- The cache breakpoints of a conversation: `withConversationCache` of agent/src/core/cache.ts.
--
-- Of the options of a provider other than `cacheControl` only the names are kept, and so of those of
-- other providers. The content of a message is text.
pub mod Breakpoints
mod Tests
use codeberg.Base.{
  ℕ, zero, suc, ◌+◌, ◌==◌, ◌&&◌, ◌||◌, not, if◌then◌else◌, is_some, Bool, true, false, Option, none,
  some, List, [], ◌∷◌, length,
}
use codeberg.Text.{Text, codes, is_empty}

pub data Cache : Type 0 where
  anthropic openai other : Cache

pub data Role : Type 0 where
  system user assistant tool : Role

pub record AnthropicOptions : Type 0 where
  pub cache_control : Option Text
  pub rest : List Text

pub record ProviderOptions : Type 0 where
  pub anthropic : Option AnthropicOptions
  pub others : List Text

pub record ModelMessage : Type 0 where
  pub role : Role
  pub content : Text
  pub provider_options : Option ProviderOptions

abbrev pub is_assistant : Role → Bool
is_assistant assistant = true
is_assistant _ = false

abbrev pub is_system : Role → Bool
is_system system = true
is_system _ = false

abbrev pub no_names : List Text → Bool
no_names [] = true
no_names (name ∷ rest) = false

abbrev pub marked : Option AnthropicOptions → AnthropicOptions
marked none = record { cache_control = some (codes "ephemeral"); rest = [] }
marked (some options) = record options { cache_control = some (codes "ephemeral") }

abbrev pub marked_options : Option ProviderOptions → ProviderOptions
marked_options none = record { anthropic = some (marked none); others = [] }
marked_options (some options) = record options { anthropic = some (marked options.anthropic) }

unfoldable pub with_cache_breakpoint : ModelMessage → ModelMessage
with_cache_breakpoint message = record message {
  provider_options = some (marked_options message.provider_options);
}

-- What is left of the options without `cacheControl`, and nothing where they would be empty.
abbrev pub cleared_options : List Text → List Text → Option ProviderOptions
cleared_options [] [] = none
cleared_options [] (name ∷ others) = some (record { anthropic = none; others = name ∷ others })
cleared_options (name ∷ rest) others = some (record {
  anthropic = some (record { cache_control = none; rest = name ∷ rest });
  others = others;
})

abbrev pub cleared : Option ProviderOptions → Option ProviderOptions
cleared none = none
cleared (some options) = elim options.anthropic [
  | none ↦ some options
  | some chosen ↦ (elim chosen.cache_control [
    | none ↦ some options
    | some control ↦ cleared_options chosen.rest options.others
  ])
]

unfoldable pub without_cache_breakpoint : ModelMessage → ModelMessage
without_cache_breakpoint message = record message {
  provider_options = cleared message.provider_options;
}

-- The position before the last assistant message: `some` of it, counted from `i`, or of what was
-- found before; `none` where there is none.
unfoldable pub previous_step : ℕ → Option ℕ → List ModelMessage → Option ℕ
previous_step i found [] = found
previous_step zero found (message ∷ rest) = previous_step 1 found rest
previous_step (suc i) found (message ∷ rest) =
    previous_step (suc (suc i)) (if is_assistant message.role then some i else found) rest

abbrev pub is_at : ℕ → Option ℕ → Bool
is_at i none = false
is_at i (some at) = at == i

-- `targets.has(i)` for the message at `i`, of `last` and the previous step.
abbrev pub is_target : ℕ → Option ℕ → ℕ → ModelMessage → Bool
is_target last previous i message = (last == i || is_at i previous) && not (is_system message.role)

unfoldable pub mark_from : ℕ → Option ℕ → ℕ → List ModelMessage → List ModelMessage
mark_from last previous i [] = []
mark_from last previous i (message ∷ rest) =
    (if is_target last previous i message
      then with_cache_breakpoint message
      else without_cache_breakpoint message)
    ∷ mark_from last previous (suc i) rest

unfoldable pub with_conversation_cache : Cache → List ModelMessage → List ModelMessage
with_conversation_cache anthropic [] = []
with_conversation_cache anthropic (message ∷ rest) =
    mark_from (length rest) (previous_step 0 none (message ∷ rest)) 0 (message ∷ rest)
with_conversation_cache openai messages = messages
with_conversation_cache other messages = messages
