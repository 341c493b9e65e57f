-- ===== src/Dreaming/Plan.antt =====
-- The validation of a plan: `validatePlan` and `validateLinks` of
-- agent/src/core/learning/dreaming/planner.ts.
--
-- The answer of the model is what JSON.parse makes of it: `none` stands for a field that is missing
-- or of another type, and for an entry that is falsy. What redactSecrets makes of a plan is an
-- argument.
pub mod Valid
pub mod Accepted
pub mod Merges
pub mod Laws
use codeberg.Base.{
  ℕ, leb, ltb, not, ◌&&◌, ◌||◌, if◌then◌else◌, Bool, true, false, Option, none, some, List, [], ◌∷◌,
  ◌++◌, length,
}
use codeberg.Text.{Text, same_text, trim, is_empty}
use codeberg.Dreaming.Artifact.{KnowledgeArtifact, same_category, has_text, get_artifact}

pub record Merge : Type 0 where
  pub target_id : Text
  pub source_ids : List Text
  pub reason : Text

pub record Link : Type 0 where
  pub from_id : Text
  pub to_id : Text
  pub reason : Text

pub record DreamingPlan : Type 0 where
  pub summary : Text
  pub merges : List Merge
  pub links : List Link

pub record MergeValue : Type 0 where
  pub target_id : Option Text
  pub source_ids : Option (List (Option Text))
  pub reason : Option Text

pub record LinkValue : Type 0 where
  pub from_id : Option Text
  pub to_id : Option Text
  pub reason : Option Text

pub record PlanValue : Type 0 where
  pub summary : Option Text
  pub merges : Option (List (Option MergeValue))
  pub links : Option (List (Option LinkValue))

-- `[merge.target_id, ...merge.source_ids]`
abbrev pub group : Merge → List Text
group merge = merge.target_id ∷ merge.source_ids

abbrev pub text_cons : Option Text → Option (List Text) → Option (List Text)
text_cons (some t) (some ts) = some (t ∷ ts)
text_cons _ _ = none

unfoldable pub all_texts : List (Option Text) → Option (List Text)
all_texts [] = some []
all_texts (t ∷ ts) = text_cons t (all_texts ts)

abbrev pub merge_of : Option Text → Option (List Text) → Option Text → Option Merge
merge_of (some target) (some sources) (some reason) =
    some (record { target_id = target; source_ids = sources; reason = reason })
merge_of _ _ _ = none

abbrev pub sources_of : Option (List (Option Text)) → Option (List Text)
sources_of none = none
sources_of (some ids) = all_texts ids

-- The tests of types.
abbrev pub typed_merge : Option MergeValue → Option Merge
typed_merge none = none
typed_merge (some value) = merge_of value.target_id (sources_of value.source_ids) value.reason

abbrev pub link_of : Option Text → Option Text → Option Text → Option Link
link_of (some from) (some to) (some reason) =
    some (record { from_id = from; to_id = to; reason = reason })
link_of _ _ _ = none

abbrev pub typed_link : Option LinkValue → Option Link
typed_link none = none
typed_link (some value) = link_of value.from_id value.to_id value.reason

abbrev pub is_reason : Text → Bool
is_reason reason = not (is_empty (trim reason)) && leb (length reason) 2000

abbrev pub is_some_text : List Text → Bool
is_some_text [] = false
is_some_text (t ∷ ts) = true

-- `new Set(group).size === group.length`
unfoldable pub distinct : List Text → Bool
distinct [] = true
distinct (t ∷ ts) = not (has_text t ts) && distinct ts

abbrev pub known : List KnowledgeArtifact → Text → Bool
known artifacts id = elim (get_artifact id artifacts) [ none ↦ false | some artifact ↦ true ]

unfoldable pub all_free : List KnowledgeArtifact → List Text → List Text → Bool
all_free artifacts used [] = true
all_free artifacts used (id ∷ ids) =
    known artifacts id && not (has_text id used) && all_free artifacts used ids

abbrev pub same_kind : Option KnowledgeArtifact → Option KnowledgeArtifact → Bool
same_kind (some a) (some b) = same_category a.category b.category
same_kind _ _ = false

unfoldable pub all_same : List KnowledgeArtifact → Text → List Text → Bool
all_same artifacts target [] = true
all_same artifacts target (id ∷ ids) =
    same_kind (get_artifact id artifacts) (get_artifact target artifacts)
    && all_same artifacts target ids

-- The tests of a merge whose fields have their types.
unfoldable pub is_merge : List KnowledgeArtifact → List Text → Merge → Bool
is_merge artifacts used merge =
    is_some_text merge.source_ids
    && is_reason merge.reason
    && all_free artifacts used (group merge)
    && distinct (group merge)
    && all_same artifacts merge.target_id (group merge)

abbrev pub cons_to {ℓ} : {A : Type ℓ} → A → Option (List A) → Option (List A)
cons_to a none = none
cons_to a (some rest) = some (a ∷ rest)

unfoldable pub validate_merges :
    List KnowledgeArtifact → List Text → List (Option MergeValue) → Option (List Merge)
validate_merges artifacts used [] = some []
validate_merges artifacts used (value ∷ rest) = elim (typed_merge value) [
  | none ↦ none
  | some merge ↦
      let later = validate_merges artifacts (used ++ group merge) rest in
      if is_merge artifacts used merge then cons_to merge later else none
]

unfoldable pub is_link : List KnowledgeArtifact → Link → Bool
is_link artifacts link =
    known artifacts link.from_id
    && known artifacts link.to_id
    && not (same_text link.from_id link.to_id)
    && is_reason link.reason

unfoldable pub validate_links :
    List KnowledgeArtifact → List (Option LinkValue) → Option (List Link)
validate_links artifacts [] = some []
validate_links artifacts (value ∷ rest) = elim (typed_link value) [
  | none ↦ none
  | some link ↦
      let later = validate_links artifacts rest in
      if is_link artifacts link then cons_to link later else none
]

abbrev pub plan_of : Text → Option (List Merge) → Option (List Link) → Option DreamingPlan
plan_of summary (some merges) (some links) =
    some (record { summary = summary; merges = merges; links = links })
plan_of summary _ _ = none

-- From the sizes on.
unfoldable pub validate_sized :
    List KnowledgeArtifact
    → Text
    → List (Option MergeValue)
    → List (Option LinkValue)
    → Option DreamingPlan
validate_sized artifacts summary merges links =
    if leb (length summary) 2000 && leb (length merges) 16 && leb (length links) 64
    then plan_of summary (validate_merges artifacts [] merges) (validate_links artifacts links)
    else none

abbrev pub validate_fields :
    List KnowledgeArtifact
    → Option Text
    → Option (List (Option MergeValue))
    → Option (List (Option LinkValue))
    → Option DreamingPlan
validate_fields artifacts (some summary) (some merges) (some links) =
    validate_sized artifacts summary merges links
validate_fields artifacts _ _ _ = none

abbrev pub redacted : (DreamingPlan → DreamingPlan) → Option DreamingPlan → Option DreamingPlan
redacted redact none = none
redacted redact (some plan) = some (redact plan)

-- `none` where it throws.
unfoldable pub validate_plan :
    (DreamingPlan → DreamingPlan) → List KnowledgeArtifact → Option PlanValue → Option DreamingPlan
validate_plan redact artifacts none = none
validate_plan redact artifacts (some value) =
    redacted redact (validate_fields artifacts value.summary value.merges value.links)
