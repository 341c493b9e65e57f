-- ===== src/Dreaming/Plan/Valid.antt =====
-- What a valid plan is.
use codeberg.Base.{◌≤◌, ◌≡◌, false, Option, some, List, [], ◌∷◌, ◌++◌, map, length, All, In}
use codeberg.Text.{Text, trim, is_empty}
use codeberg.Dreaming.Artifact.{KnowledgeArtifact, get_artifact}
use codeberg.Dreaming.Plan.{
  Merge, Link, DreamingPlan, MergeValue, LinkValue, PlanValue, group, typed_merge, typed_link,
}

abbrev pub Distinct : List Text → Type 0
Distinct [] = Unit {0}
Distinct (t ∷ ts) = (¬ In t ts) × Distinct ts

-- The notes of all merges.
abbrev pub notes : List Merge → List Text
notes [] = []
notes (merge ∷ rest) = group merge ++ notes rest

-- A note that is there and has the category of the target.
pub record IsNote (artifacts : List KnowledgeArtifact) (target id : Text) : Type 0 where
  pub note : KnowledgeArtifact
  pub target_note : KnowledgeArtifact
  pub there_is : get_artifact id artifacts ≡ some note
  pub target_there_is : get_artifact target artifacts ≡ some target_note
  pub same_category_lem : note.category ≡ target_note.category

pub record IsReason (reason : Text) : Type 0 where
  pub given : is_empty (trim reason) ≡ false
  pub short : length reason ≤ 2000

pub record IsMerge (artifacts : List KnowledgeArtifact) (merge : Merge) : Type 0 where
  pub some_source : 1 ≤ length merge.source_ids
  pub reason : IsReason merge.reason
  pub there_are : All (IsNote artifacts merge.target_id) (group merge)

pub record IsLink (artifacts : List KnowledgeArtifact) (link : Link) : Type 0 where
  pub from_known : (note : KnowledgeArtifact) × (get_artifact link.from_id artifacts ≡ some note)
  pub to_known : (note : KnowledgeArtifact) × (get_artifact link.to_id artifacts ≡ some note)
  pub apart : ¬ (link.from_id ≡ link.to_id)
  pub reason : IsReason link.reason

pub record IsPlan (artifacts : List KnowledgeArtifact) (value : PlanValue) (plan : DreamingPlan)
    : Type 0 where
  pub summary_given : value.summary ≡ some plan.summary
  pub summary_short : length plan.summary ≤ 2000
  pub few_merges : length plan.merges ≤ 16
  pub few_links : length plan.links ≤ 64
  pub merges_lem : All (IsMerge artifacts) plan.merges
  pub once : Distinct (notes plan.merges)
  pub links_lem : All (IsLink artifacts) plan.links
  pub given_merges :
      (values : List (Option MergeValue)) × (value.merges ≡ some values)
      × (map typed_merge values ≡ map some plan.merges)
  pub given_links :
      (values : List (Option LinkValue)) × (value.links ≡ some values)
      × (map typed_link values ≡ map some plan.links)
