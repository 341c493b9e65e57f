-- ===== src/RequestBudget/Checkpoints/Sound.antt =====
-- The checkpoint of a compaction can be saved and found again.
use codeberg.Base.{
  ◌+◌, ◌-◌, ◌≤◌, ◌<◌, ◌≡◌, ◌⊎◌, inl, inr, true, none, some, List, [], ◌∷◌, ◌++◌, length, take,
  keep_if, arith, refl, ap, ◌∙◌, Bool-cases, length-append,
}
use codeberg.RequestBudget.Estimate.{Request, Message}
use codeberg.RequestBudget.Split.{Split}
use codeberg.RequestBudget.Split.Laws.{IsSuffix, IsAround}
use codeberg.RequestBudget.Compact.{
  systems, bodies, checkpoint_of, RequestCheckpoint, is_system, all_system, prompt_index, index_in,
}
use codeberg.RequestBudget.Checkpoints.{keeps_below}
use codeberg.RequestBudget.Checkpoints.Systems.{
  all_system-keep_if, none_of_body, system_first, index_after,
}

-- A checkpoint that can be saved and found again.
pub record IsSound (request : Request) (marker : Message) (c : RequestCheckpoint) : Type 0 where
  pub positive : 0 < c.count
  pub within : c.count ≤ length request.prompt
  pub keeps : keeps_below c.count c.preserve_user ≡ true
  pub marked : c.marker ≡ marker

suffix-IsSound :
    (request : Request) (marker : Message) (s older recent : List Message)
    → request.prompt ≡ s ++ (older ++ recent)
    → 1 ≤ length older
    → IsSound request marker (record {
      count = length request.prompt - length recent;
      marker = marker;
      preserve_user = none;
    })
suffix-IsSound request marker s older recent e h =
    let whole = ap length e in
    let l1 = length-append s (older ++ recent) in
    let l2 = length-append older recent in
    record { positive = omega arith; within = omega arith; keeps = refl; marked = refl }

around-IsSound :
    (request : Request) (marker u : Message) (s before mid after : List Message)
    → request.prompt ≡ s ++ (before ++ u ∷ (mid ++ after))
    → all_system s ≡ true
    → keep_if is_system (before ++ u ∷ (mid ++ after)) ≡ []
    → IsSound request marker (record {
      count = length request.prompt - length after;
      marker = marker;
      preserve_user = some (prompt_index (length before) request.prompt);
    })
around-IsSound request marker u s before mid after e h n =
    let whole = ap length e in
    let l1 = length-append s (before ++ u ∷ (mid ++ after)) in
    let l2 = length-append before (u ∷ (mid ++ after)) in
    let l3 = length-append mid after in
    let index : prompt_index (length before) request.prompt ≡ length s + length before =
      ap (prompt_index (length before)) e
      ∙ index_after (length before) s (before ++ u ∷ (mid ++ after)) h n (omega arith) in
    record { positive = omega arith; within = omega arith; keeps = ground arith; marked = refl }

pub checkpoint-IsSound :
    (request : Request) (split : Split) (marker : Message) (c : RequestCheckpoint)
    → 1 ≤ length split.older
    → IsSuffix (bodies request) split ⊎ IsAround (bodies request) split
    → checkpoint_of request split marker ≡ some c
    → IsSound request marker c
checkpoint-IsSound request split marker c moved p e =
    elim (Bool-cases (all_system (take (length (systems request)) request.prompt))) [
      | inr mixed ↦ let e' = rw mixed at e in absurd (cc)
      | inl first ↦
          let e' = rw first at e in
          let whole = system_first request.prompt first in
          let all = all_system-keep_if request.prompt in
          let others = none_of_body request.prompt in
          let same : record {
            count = length request.prompt - split.tail;
            marker = marker;
            preserve_user = index_in request.prompt split.preserve;
          }
              ≡ c =
            cc in
          rw (← same) (elim p [
            | inl k ↦
                rw (k.ends, k.none_kept)
                  (suffix-IsSound request marker (systems request) split.older split.recent
                    (whole ∙ ap (λ x. systems request ++ x) k.parted) moved)
            | inr k ↦
                rw (k.ends, k.kept_at)
                  (around-IsSound request marker k.kept (systems request) k.before k.between k.after
                    (whole ∙ ap (λ x. systems request ++ x) k.parted) all (rw (← k.parted) others))
          ])
    ]
