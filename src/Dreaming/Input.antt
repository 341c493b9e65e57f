-- ===== src/Dreaming/Input.antt =====
-- What a consolidation is given: `dreamingInput` of agent/src/core/learning/dreaming/planner.ts.
--
-- The order of localeCompare, the fingerprint of a note and the length of its redacted JSON are
-- arguments, and so is the map of reviews, as a function.
pub mod Laws
use codeberg.Base.{
  ℕ, ◌+◌, ◌-◌, leb, ltb, ◌||◌, if◌then◌else◌, Bool, true, false, Option, none, some, List, [], ◌∷◌,
  length,
}
use codeberg.Text.{Text, same_text}
use codeberg.Dreaming.Sort.{Order, then_by, sort_by}
use codeberg.Dreaming.Artifact.{KnowledgeArtifact}

pub record Review : Type 0 where
  pub fingerprint : Text
  pub timestamp : Text

pub record Input : Type 0 where
  pub included : List KnowledgeArtifact
  pub omitted : ℕ

-- `DREAMING_MAX_ARTIFACTS`, `DREAMING_MAX_INPUT_CHARS`
abbrev pub max_artifacts : ℕ
max_artifacts = 32

abbrev pub max_input_chars : ℕ
max_input_chars = 60000

abbrev pub seen_at : Text → Option Review → Text
seen_at current none = []
seen_at current (some review) =
    if same_text review.fingerprint current then review.timestamp else []

module _ (locale : Text → Text → Order) (fingerprint : KnowledgeArtifact → Text)
    (reviewed : Text → Option Review) where
  abbrev pub last_seen : KnowledgeArtifact → Text
  last_seen artifact = seen_at (fingerprint artifact) (reviewed artifact.id)

  unfoldable pub compare : KnowledgeArtifact → KnowledgeArtifact → Order
  compare a b =
      then_by (locale (last_seen a) (last_seen b))
        (then_by (locale b.updated_at a.updated_at) (locale a.id b.id))

module _ (size : KnowledgeArtifact → ℕ) where
  abbrev pub is_full : ℕ → ℕ → KnowledgeArtifact → Bool
  is_full count chars artifact =
      leb max_artifacts count || ltb max_input_chars (chars + size artifact)

  -- The notes that the loop includes, from a count and a sum of sizes on.
  unfoldable pub pack : ℕ → ℕ → List KnowledgeArtifact → List KnowledgeArtifact
  pack count chars [] = []
  pack count chars (artifact ∷ rest) =
      let with_it = pack (1 + count) (chars + size artifact) rest in
      let without = pack count chars rest in
      if is_full count chars artifact then without else artifact ∷ with_it

module _ (locale : Text → Text → Order) (fingerprint : KnowledgeArtifact → Text)
    (size : KnowledgeArtifact → ℕ) (reviewed : Text → Option Review) where
  unfoldable pub dreaming_input : List KnowledgeArtifact → Input
  dreaming_input artifacts =
      let included = pack size 0 0 (sort_by (compare locale fingerprint reviewed) artifacts) in
      record { included = included; omitted = length artifacts - length included }
