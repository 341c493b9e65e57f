-- ===== src/Dreaming/Tests.antt =====
-- A few notes: the theorems of the consolidation at inputs that meet their hypotheses, and runs of
-- its operations.
use codeberg.Base.{
  ℕ, ◌≡◌, Option, none, some, refl, List, [], ◌∷◌, length, ltb, ◌==◌, if◌then◌else◌,
}
use codeberg.Text.{Text, codes, trim, trim_end, trim_start, is_space}
use codeberg.Dreaming.Sort.{Order, before, equal, after, sort_by, insert_by}
use codeberg.Dreaming.Artifact.{
  KnowledgeArtifact, DreamingReport, services, flows, active, archived, applied, KnowledgeCategory,
  KnowledgeStatus, get_artifact, has_text,
}
use codeberg.Dreaming.Plan.{
  DreamingPlan, MergeValue, LinkValue, PlanValue, validate_plan, validate_sized, validate_merges,
  all_texts, is_merge, all_free, distinct, all_same, validate_links, is_link,
}
use codeberg.Dreaming.Plan.Valid.{IsPlan}
use codeberg.Dreaming.Plan.Laws.{validate_plan-IsPlan}
use codeberg.Dreaming.Input.{Review, dreaming_input, pack, compare}
use codeberg.Dreaming.Input.Laws.{IsPacked, dreaming_input-IsPacked}
use codeberg.Dreaming.Projection.{
  project_dreaming_knowledge, passes, pass, applied_reports, all_fresh, value_at, set_all,
  set_artifact, apply_changes,
}
use codeberg.Dreaming.Projection.Laws.{IsProjected, project_dreaming_knowledge-IsProjected}

abbrev note : Text → KnowledgeCategory → KnowledgeStatus → Text → KnowledgeArtifact
note name kind state body = record {
  id = name;
  category = kind;
  status = state;
  updated_at = codes "2";
  content = body;
}

abbrev queue_note : KnowledgeArtifact
queue_note = note (codes "queue") flows active (codes "jobs")

abbrev retry_note : KnowledgeArtifact
retry_note = note (codes "retry") flows active (codes "delays")

abbrev server_note : KnowledgeArtifact
server_note = note (codes "server") services active (codes "routes")

abbrev three_notes : List KnowledgeArtifact
three_notes = queue_note ∷ retry_note ∷ server_note ∷ []

abbrev merge_value : MergeValue
merge_value = record {
  target_id = some (codes "queue");
  source_ids = some (some (codes "retry") ∷ []);
  reason = some (codes "same");
}

abbrev link_value : LinkValue
link_value = record {
  from_id = some (codes "queue");
  to_id = some (codes "server");
  reason = some (codes "used by");
}

abbrev plan_value : PlanValue
plan_value = record {
  summary = some (codes "one merge");
  merges = some (some merge_value ∷ []);
  links = some (some link_value ∷ []);
}

abbrev same_plan : DreamingPlan → DreamingPlan
same_plan plan = plan

abbrev planned : DreamingPlan
planned = record {
  summary = codes "one merge";
  merges =
      record { target_id = codes "queue"; source_ids = codes "retry" ∷ []; reason = codes "same" }
      ∷ [];
  links = record { from_id = codes "queue"; to_id = codes "server"; reason = codes "used by" } ∷ [];
}

-- Texts by their length.
abbrev by_length : Text → Text → Order
by_length a b =
    if ltb (length a) (length b) then before else if length a == length b then equal else after

abbrev body : KnowledgeArtifact → Text
body artifact = artifact.content

abbrev never_reviewed : Text → Option Review
never_reviewed id = none

abbrev sizes : KnowledgeArtifact → ℕ
sizes artifact = if length artifact.content == 4 then 50000 else 20000

abbrev retry_merged : DreamingReport
retry_merged = record {
  report_id = codes "r1";
  status = applied;
  changes =
      record {
        before = queue_note;
        after = note (codes "queue") flows active (codes "jobs and delays");
      }
      ∷ record { before = retry_note; after = note (codes "retry") flows archived (codes "delays") }
      ∷ [];
  decided_at = codes "1";
}

-- Its note was archived by the report before it.
abbrev retry_again : DreamingReport
retry_again = record {
  report_id = codes "r2";
  status = applied;
  changes =
      record { before = retry_note; after = note (codes "retry") flows active (codes "more") } ∷ [];
  decided_at = codes "22";
}

abbrev all_ids : List Text
all_ids = codes "queue" ∷ codes "retry" ∷ codes "server" ∷ []

validate_plan-IsPlan_example :
    (plan : DreamingPlan) × (planned ≡ same_plan plan) × IsPlan three_notes plan_value plan
unfolding validate_plan validate_sized validate_merges all_texts is_merge trim trim_end trim_start
    is_space all_free get_artifact has_text distinct all_same validate_links is_link
validate_plan-IsPlan_example = validate_plan-IsPlan same_plan three_notes plan_value planned refl

dreaming_input-IsPacked_example :
    IsPacked sizes three_notes (dreaming_input by_length body sizes never_reviewed three_notes)
dreaming_input-IsPacked_example =
    dreaming_input-IsPacked by_length body sizes never_reviewed three_notes

project_dreaming_knowledge-IsProjected_example :
    IsProjected body three_notes (retry_again ∷ retry_merged ∷ []) all_ids (
      project_dreaming_knowledge body by_length three_notes
        (retry_again ∷ retry_merged ∷ [])
        all_ids)
project_dreaming_knowledge-IsProjected_example =
    project_dreaming_knowledge-IsProjected body by_length three_notes
      (retry_again ∷ retry_merged ∷ []) all_ids

input_test : (dreaming_input by_length body sizes never_reviewed three_notes).omitted ≡ 2
unfolding dreaming_input pack sort_by insert_by compare
input_test = refl

projection_test :
    project_dreaming_knowledge body by_length three_notes (retry_again ∷ retry_merged ∷ []) all_ids
    ≡ some (
        note (codes "queue") flows active (codes "jobs and delays")
        ∷ note (codes "retry") flows archived (codes "delays")
        ∷ server_note
        ∷ [])
unfolding project_dreaming_knowledge passes pass applied_reports sort_by insert_by all_fresh
    value_at set_all set_artifact apply_changes has_text
projection_test = refl
