-- ===== src/Dreaming/Artifact.antt =====
-- Knowledge notes (agent/src/core/learning/types.ts), changes and reports of a consolidation
-- (agent/src/core/learning/dreaming/types.ts), and maps from ids to notes.
--
-- A note's fields that no operation here reads are one text.
pub mod Laws
use codeberg.Base.{Bool, true, false, ◌||◌, if◌then◌else◌, Option, none, some, List, [], ◌∷◌}
use codeberg.Text.{Text, same_text}

pub data KnowledgeCategory : Type 0 where
  services flows concepts debugging : KnowledgeCategory

pub data KnowledgeStatus : Type 0 where
  active needs_verification archived : KnowledgeStatus

pub record KnowledgeArtifact : Type 0 where
  pub id : Text
  pub category : KnowledgeCategory
  pub status : KnowledgeStatus
  pub updated_at : Text
  pub content : Text

pub record DreamingChange : Type 0 where
  pub before : KnowledgeArtifact
  pub after : KnowledgeArtifact

pub data ReportStatus : Type 0 where
  proposed applied undone dismissed : ReportStatus

pub record DreamingReport : Type 0 where
  pub report_id : Text
  pub status : ReportStatus
  pub changes : List DreamingChange
  -- The time of the first decision, which an applied report has.
  pub decided_at : Text

abbrev pub same_category : KnowledgeCategory → KnowledgeCategory → Bool
same_category services services = true
same_category flows flows = true
same_category concepts concepts = true
same_category debugging debugging = true
same_category _ _ = false

abbrev pub is_archived : KnowledgeStatus → Bool
is_archived archived = true
is_archived _ = false

abbrev pub is_applied : ReportStatus → Bool
is_applied applied = true
is_applied _ = false

-- `Set.has`
unfoldable pub has_text : Text → List Text → Bool
has_text t [] = false
has_text t (u ∷ us) = same_text t u || has_text t us

-- `Map.get` on a map made of notes by their ids, of which the last of an id counts.
unfoldable pub get_artifact : Text → List KnowledgeArtifact → Option KnowledgeArtifact
get_artifact key [] = none
get_artifact key (artifact ∷ rest) = elim (get_artifact key rest) [
  | some later ↦ some later
  | none ↦ if same_text artifact.id key then some artifact else none
]
