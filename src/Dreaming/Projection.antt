-- ===== src/Dreaming/Projection.antt =====
-- Notes with the applied reports laid over them: `projectDreamingKnowledge` of
-- agent/src/core/learning/dreaming/projection.ts.
--
-- The order of localeCompare and the fingerprint of a note are arguments. A map from ids to notes is
-- the list of its values, in the order in which their ids were first set.
pub mod Fresh
pub mod Laws
use codeberg.Base.{
  ℕ, zero, suc, ◌&&◌, not, if◌then◌else◌, Bool, true, false, Option, none, some, List, [], ◌∷◌,
  length, keep_if,
}
use codeberg.Text.{Text, same_text}
use codeberg.Dreaming.Sort.{Order, then_by, sort_by}
use codeberg.Dreaming.Artifact.{
  KnowledgeArtifact, DreamingChange, DreamingReport, is_archived, is_applied, has_text,
}

pub record Knowledge : Type 0 where
  pub current : List KnowledgeArtifact
  pub available : List Text

-- A pass of the loop: what it leaves.
pub record Pass : Type 0 where
  pub knowledge : Knowledge
  pub remaining : List DreamingReport
  pub progressed : Bool

unfoldable pub value_at : Text → List KnowledgeArtifact → Option KnowledgeArtifact
value_at key [] = none
value_at key (artifact ∷ rest) =
    if same_text artifact.id key then some artifact else value_at key rest

-- `current.set(artifact.id, artifact)`
unfoldable pub set_artifact : KnowledgeArtifact → List KnowledgeArtifact → List KnowledgeArtifact
set_artifact artifact [] = artifact ∷ []
set_artifact artifact (first ∷ rest) =
    let later = set_artifact artifact rest in
    if same_text first.id artifact.id then artifact ∷ rest else first ∷ later

unfoldable pub set_all : List KnowledgeArtifact → List KnowledgeArtifact → List KnowledgeArtifact
set_all [] current = current
set_all (artifact ∷ rest) current = set_all rest (set_artifact artifact current)

abbrev pub delete_text : Text → List Text → List Text
delete_text t ts = keep_if (λ u. not (same_text u t)) ts

abbrev pub apply_change : DreamingChange → Knowledge → Knowledge
apply_change change knowledge = record {
  current = set_artifact change.after knowledge.current;
  available =
      if is_archived change.after.status
      then delete_text change.after.id knowledge.available
      else knowledge.available;
}

unfoldable pub apply_changes : List DreamingChange → Knowledge → Knowledge
apply_changes [] knowledge = knowledge
apply_changes (change ∷ rest) knowledge = apply_changes rest (apply_change change knowledge)

module _ (fingerprint : KnowledgeArtifact → Text) where
  abbrev pub is_fresh : Knowledge → KnowledgeArtifact → Bool
  is_fresh knowledge before = elim (value_at before.id knowledge.current) [
    | none ↦ false
    | some artifact ↦
        has_text before.id knowledge.available
        && same_text (fingerprint artifact) (fingerprint before)
  ]

  unfoldable pub all_fresh : Knowledge → List DreamingChange → Bool
  all_fresh knowledge [] = true
  all_fresh knowledge (change ∷ rest) = is_fresh knowledge change.before && all_fresh knowledge rest

  -- The loop over the reports that remain.
  unfoldable pub pass : Knowledge → List DreamingReport → Pass
  pass knowledge [] = record { knowledge = knowledge; remaining = []; progressed = false }
  pass knowledge (report ∷ rest) =
      let applied = pass (apply_changes report.changes knowledge) rest in
      let skipped = pass knowledge rest in
      if all_fresh knowledge report.changes
      then record applied { progressed = true }
      else record skipped { remaining = report ∷ skipped.remaining }

  -- The outer loop, for at most so many passes; `none` where they do not suffice.
  unfoldable pub passes : ℕ → Knowledge → List DreamingReport → Option Pass
  passes zero knowledge reports = none
  passes (suc n) knowledge reports =
      let first = pass knowledge reports in
      let later = passes n first.knowledge first.remaining in
      if first.progressed then later else some first

module _ (locale : Text → Text → Order) where
  abbrev pub compare_reports : DreamingReport → DreamingReport → Order
  compare_reports a b = then_by (locale a.decided_at b.decided_at) (locale a.report_id b.report_id)

  unfoldable pub applied_reports : List DreamingReport → List DreamingReport
  applied_reports reports = sort_by compare_reports (keep_if (λ r. is_applied r.status) reports)

abbrev pub start : List KnowledgeArtifact → List Text → Knowledge
start artifacts fresh_ids = record { current = set_all artifacts []; available = fresh_ids }

abbrev pub values_of : Option Pass → Option (List KnowledgeArtifact)
values_of none = none
values_of (some last) = some last.knowledge.current

-- With one pass more than there are applied reports.
unfoldable pub project_dreaming_knowledge :
    (KnowledgeArtifact → Text)
    → (Text → Text → Order)
    → List KnowledgeArtifact
    → List DreamingReport
    → List Text
    → Option (List KnowledgeArtifact)
project_dreaming_knowledge fingerprint locale artifacts reports fresh_ids =
    let applied = applied_reports locale reports in
    values_of (passes fingerprint (suc (length applied)) (start artifacts fresh_ids) applied)
