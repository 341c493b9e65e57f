-- ===== src/RequestBudget/Tests.antt =====
-- A request that is too long: the theorems of the budget at it, and runs of its operations.
use codeberg.Base.{
  ℕ, ◌/◌, ◌==◌, if◌then◌else◌, ◌≡◌, Bool, true, false, Option, none, some, refl, List, [], ◌∷◌,
  ◌++◌, length,
}
use codeberg.Text.{Text, codes, strip_prefix}
use codeberg.RequestBudget.Estimate.{
  system, user, assistant, text, reasoning, plain, parts, Content, Message, Request,
  estimate_request, content_tokens, parts_tokens, part_tokens,
}
use codeberg.History.Files.{captures, match_group, match_here}
use codeberg.History.Messages.{estimate_tokens}
use codeberg.RequestBudget.Split.{split_request, last_role, split_at}
use codeberg.RequestBudget.Compact.{
  Summary, summarized, Compaction, Outcome, compacted, RequestCheckpoint, compact_request,
  compact_split, archived_with, summarized_with, checkpoint_text, compacted_with, all_system,
}
use codeberg.RequestBudget.Compact.Laws.{split_of, IsCompacted, compact_request-IsCompacted}
use codeberg.Prefixes.{all_resolve}
use codeberg.RequestBudget.Checkpoints.{joined, save, restore}
use codeberg.RequestBudget.Checkpoints.Restore.{compact-saved_restored}
use codeberg.RequestBudget.Retry.{
  answered, overflow, Attempt, Run, returned, with_budget_retry, attempts, prepare, call_with,
}
use codeberg.RequestBudget.Retry.Bounds.{IsBounded, with_budget_retry-IsBounded}

abbrev shown : Content → Text
shown (plain t) = t
shown (parts ps) = joined ps

abbrev said : Text → Message
said t = record { role = user; content = parts (text t ∷ []) }

abbrev long : Text
long =
    codes
      "a long answer about the files of the repository, their tests and what they leave out; a long answer about the files of the repository, their tests and what they leave out; a long answer about the files of the repository, their tests and what they leave out; a long answer about the files of the repository, their tests and what they leave out; a long answer about the files of the repository, their tests and what they leave out"

abbrev long_request : Request
long_request = record {
  prompt =
      record { role = system; content = plain (codes "rules") }
      ∷ said long
      ∷ record { role = assistant; content = parts (reasoning long ∷ (text long ∷ [])) }
      ∷ said (codes "next")
      ∷ [];
  schemas = codes "{}";
}

abbrev to_file : Text → Option Text
to_file t = some (codes "h.md")

abbrev short_summary : Text → ℕ → Summary
short_summary t limit = summarized (codes "sum")

abbrev outcome : Outcome
outcome = compact_request shown to_file short_summary long_request 200

abbrev compaction : Compaction
compaction = elim outcome [
  | compacted c ↦ c
  | _ ↦ record { request = long_request; checkpoint = none }
]

abbrev checkpoint : RequestCheckpoint
checkpoint = elim compaction.checkpoint [
  | some c ↦ c
  | none ↦ record { count = 0; marker = said []; preserve_user = none }
]

abbrev digest : Text → Text
digest t = length t ∷ []

abbrev print : Message → Text
print message = shown message.content

abbrev always : Text → Bool
always path = true

abbrev later_messages : List Message
later_messages = said (codes "and now?") ∷ []

-- The provider rejects the first request and answers the next.
abbrev attempt : ℕ → Attempt ℕ
attempt n = record {
  aborts = record { at_start = false; before_call = false; after_error = false };
  write_history = to_file;
  summarize = short_summary;
  call = if n == 0 then (λ r. overflow) else (λ r. answered 7);
}

abbrev half : ℕ → ℕ
half n = n / 2

abbrev retried : Run ℕ
retried = with_budget_retry shown estimate_request attempt half half half 400 long_request

size_test : estimate_request long_request ≡ 365
unfolding estimate_request estimate_tokens content_tokens parts_tokens part_tokens
size_test = refl

retry_test : (retried.result ≡ returned 7) × (length retried.calls ≡ 2)
unfolding compact_request compact_split split_request last_role split_at content_tokens parts_tokens
    part_tokens estimate_tokens estimate_request archived_with summarized_with checkpoint_text
    compacted_with with_budget_retry attempts prepare call_with
retry_test = (refl, refl)

compact_request-IsCompacted_example :
    IsCompacted shown to_file long_request 200 (split_of long_request 200) compaction
unfolding compact_request compact_split split_request last_role split_at content_tokens parts_tokens
    part_tokens estimate_tokens estimate_request archived_with summarized_with checkpoint_text
    compacted_with
compact_request-IsCompacted_example =
    compact_request-IsCompacted shown to_file short_summary long_request 200 compaction refl

compact-saved_restored_example :
    restore digest print always
      (save digest print true long_request.prompt checkpoint [])
      (long_request.prompt ++ later_messages)
    ≡ compaction.request.prompt ++ later_messages
unfolding compact_request compact_split split_request last_role split_at content_tokens parts_tokens
    part_tokens estimate_tokens estimate_request archived_with summarized_with checkpoint_text
    compacted_with all_system captures match_group match_here strip_prefix joined all_resolve
compact-saved_restored_example =
    compact-saved_restored digest print always shown to_file short_summary long_request 200
      compaction checkpoint later_messages refl refl refl

with_budget_retry-IsBounded_example : IsBounded estimate_request 400 4 retried
with_budget_retry-IsBounded_example =
    with_budget_retry-IsBounded shown estimate_request attempt half half half 400 long_request
