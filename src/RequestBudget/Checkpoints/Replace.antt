-- ===== src/RequestBudget/Checkpoints/Replace.antt =====
-- The checkpoint of a compaction makes of the prompt what the compaction did.
use codeberg.Base.{
  ◌+◌, ◌-◌, ◌≡◌, ◌⊎◌, inl, inr, true, none, some, List, [], ◌∷◌, ◌++◌, length, take, get_elem?,
  keep_if, arith, refl, ap, ◌∙◌, Bool-cases, length-append,
}
use mathlib.Core.List.{append_assoc}
use codeberg.RequestBudget.Estimate.{Request, user, same_role, Message}
use codeberg.RequestBudget.Split.{Split}
use codeberg.RequestBudget.Split.Laws.{IsSuffix, IsAround}
use codeberg.RequestBudget.Compact.{
  systems, bodies, checkpoint_of, RequestCheckpoint, is_system, all_system, prompt_index, index_in,
}
use codeberg.RequestBudget.Checkpoints.{replace_prefix}
use codeberg.RequestBudget.Checkpoints.Systems.{
  take-length, drop-length, get_elem?-at, all_system-keep_if, none_of_body, system_first,
  index_after, systems_of, no_systems_left,
}

-- The prefix of a checkpoint without a kept message is replaced by the systems and the marker.
replace_suffix :
    (marker : Message) (s b r : List Message)
    → all_system s ≡ true
    → keep_if is_system b ≡ []
    → replace_prefix
        (record { count = length (s ++ b); marker = marker; preserve_user = none })
        ((s ++ b) ++ r)
      ≡ some (s ++ marker ∷ r)
unfolding replace_prefix
replace_suffix marker s b r h n =
    rw (take-length (s ++ b) r, drop-length (s ++ b) r, systems_of s b h n) refl

replace_around :
    (marker u : Message) (s before mid r : List Message)
    → all_system s ≡ true
    → keep_if is_system (before ++ u ∷ mid) ≡ []
    → same_role u.role user ≡ true
    → replace_prefix
        (record {
          count = length (s ++ (before ++ u ∷ mid));
          marker = marker;
          preserve_user = some (length s + length before);
        })
        ((s ++ (before ++ u ∷ mid)) ++ r)
      ≡ some (s ++ marker ∷ (u ∷ r))
unfolding replace_prefix
replace_around marker u s before mid r h n role =
    let at : get_elem? (s ++ (before ++ u ∷ mid)) (length s + length before) ≡ some u =
      rw (← append_assoc s before (u ∷ mid), ← length-append s before)
        (get_elem?-at (s ++ before) u mid) in
    rw
      (
        take-length (s ++ (before ++ u ∷ mid)) r,
        drop-length (s ++ (before ++ u ∷ mid)) r,
        systems_of s (before ++ u ∷ mid) h n,
        at,
        role,
      )
      refl

suffix_replaced :
    (marker : Message) (s older recent more prompt : List Message)
    → prompt ≡ s ++ (older ++ recent)
    → all_system s ≡ true
    → keep_if is_system (older ++ recent) ≡ []
    → replace_prefix
        (record { count = length prompt - length recent; marker = marker; preserve_user = none })
        (prompt ++ more)
      ≡ some ((s ++ marker ∷ recent) ++ more)
suffix_replaced marker s older recent more prompt e h n =
    let count : length (s ++ (older ++ recent)) - length recent ≡ length (s ++ older) = omega (
      arith,
      length-append s (older ++ recent),
      length-append older recent,
      length-append s older,
    ) in
    let whole : (s ++ (older ++ recent)) ++ more ≡ (s ++ older) ++ (recent ++ more) =
      simp append_assoc in
    rw (e, count, whole, append_assoc s (marker ∷ recent) more)
      (replace_suffix marker s older (recent ++ more) h (no_systems_left older recent n))

around_replaced :
    (marker u : Message) (s before mid after more prompt : List Message)
    → prompt ≡ s ++ (before ++ u ∷ (mid ++ after))
    → all_system s ≡ true
    → keep_if is_system (before ++ u ∷ (mid ++ after)) ≡ []
    → same_role u.role user ≡ true
    → replace_prefix
        (record {
          count = length prompt - length after;
          marker = marker;
          preserve_user = some (prompt_index (length before) prompt);
        })
        (prompt ++ more)
      ≡ some ((s ++ marker ∷ (u ∷ after)) ++ more)
around_replaced marker u s before mid after more prompt e h n role =
    let l1 = length-append s (before ++ u ∷ (mid ++ after)) in
    let l2 = length-append before (u ∷ (mid ++ after)) in
    let l3 = length-append mid after in
    let l4 = length-append s (before ++ u ∷ mid) in
    let l5 = length-append before (u ∷ mid) in
    let count : length (s ++ (before ++ u ∷ (mid ++ after))) - length after
        ≡ length (s ++ (before ++ u ∷ mid)) =
      omega arith in
    let index : prompt_index (length before) (s ++ (before ++ u ∷ (mid ++ after)))
        ≡ length s + length before =
      index_after (length before) s (before ++ u ∷ (mid ++ after)) h n (omega arith) in
    let inner : (before ++ u ∷ (mid ++ after)) ≡ (before ++ u ∷ mid) ++ after = simp append_assoc in
    let whole : (s ++ (before ++ u ∷ (mid ++ after))) ++ more
        ≡ (s ++ (before ++ u ∷ mid)) ++ (after ++ more) =
      simp append_assoc in
    rw (e, count, index, whole, append_assoc s (marker ∷ (u ∷ after)) more)
      (replace_around marker u s before mid (after ++ more) h
        (no_systems_left (before ++ u ∷ mid) after (rw (← inner) n)) role)

-- The checkpoint of a compaction turns the prompt, and what follows it, into the compacted one.
pub checkpoint-replaced :
    (request : Request) (split : Split) (marker : Message) (c : RequestCheckpoint)
    (more : List Message)
    → IsSuffix (bodies request) split ⊎ IsAround (bodies request) split
    → checkpoint_of request split marker ≡ some c
    → replace_prefix c (request.prompt ++ more)
      ≡ some ((systems request ++ marker ∷ split.recent) ++ more)
checkpoint-replaced request split marker c more p e =
    elim (Bool-cases (all_system (take (length (systems request)) request.prompt))) [
      | inr mixed ↦ let e' = rw mixed at e in absurd (cc)
      | inl first ↦
          let e' = rw first at e in
          let whole = system_first request.prompt first in
          let all = all_system-keep_if request.prompt in
          let others = none_of_body request.prompt in
          let same : record {
            count = length request.prompt - split.tail;
            marker = marker;
            preserve_user = index_in request.prompt split.preserve;
          }
              ≡ c =
            cc in
          rw (← same) (elim p [
            | inl k ↦
                rw (k.ends, k.none_kept)
                  (suffix_replaced marker (systems request) split.older split.recent more
                    request.prompt (whole ∙ ap (λ x. systems request ++ x) k.parted) all
                    (rw (← k.parted) others))
            | inr k ↦
                rw (k.ends, k.kept_at, k.recent_lem)
                  (around_replaced marker k.kept (systems request) k.before k.between k.after more
                    request.prompt (whole ∙ ap (λ x. systems request ++ x) k.parted) all
                    (rw (← k.parted) others) k.is_user)
          ])
    ]
