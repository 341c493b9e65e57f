-- ===== src/PromptCache/Tests.antt =====
-- A conversation of two steps.
use codeberg.Base.{◌≤◌, ◌≡◌, none, List, [], ◌∷◌, map, refl}
use codeberg.Text.{codes}
use codeberg.PromptCache.{
  anthropic, ModelMessage, user, assistant, tool, with_cache_breakpoint, without_cache_breakpoint,
  previous_step, mark_from, with_conversation_cache,
}
use codeberg.PromptCache.Breakpoints.{breakpoints, body, with_conversation_cache-breakpoints}

abbrev question : ModelMessage
question = record { role = user; content = codes "why?"; provider_options = none }

abbrev call : ModelMessage
call = record { role = assistant; content = codes "look"; provider_options = none }

abbrev result : ModelMessage
result = record { role = tool; content = codes "found"; provider_options = none }

abbrev conversation : List ModelMessage
conversation =
    with_cache_breakpoint question ∷ call ∷ with_cache_breakpoint result ∷ call ∷ result ∷ []

with_conversation_cache-breakpoints_example :
    (breakpoints (with_conversation_cache anthropic conversation) ≤ 2)
    × (map body (with_conversation_cache anthropic conversation) ≡ map body conversation)
with_conversation_cache-breakpoints_example = with_conversation_cache-breakpoints conversation

-- The tail is marked, and the message before the last call.
marks_test :
    with_conversation_cache anthropic conversation
    ≡ question ∷ call ∷ with_cache_breakpoint result ∷ call ∷ with_cache_breakpoint result ∷ []
unfolding with_conversation_cache with_cache_breakpoint without_cache_breakpoint previous_step
    mark_from
marks_test = refl
