-- ===== src/Dreaming/Input/Laws.antt =====
-- What a consolidation is given fits, and what is left out would not have.
use codeberg.Base.{
  ℕ, ◌+◌, ◌≤◌, ◌<◌, ◌≡◌, ◌⊎◌, inl, inr, leb, true, Option, List, [], ◌∷◌, length, In, here, there,
  In-cons, arith, Bool-cases,
}
use codeberg.Text.{Text}
use codeberg.Dreaming.Artifact.{KnowledgeArtifact}
use codeberg.Dreaming.Sort.{Order, sort_by}
use codeberg.Dreaming.Sort.Laws.{In-sort_by, sort_by-In, length-sort_by}
use codeberg.Dreaming.Input.{
  Review, Input, max_artifacts, max_input_chars, compare, is_full, pack, dreaming_input,
}

abbrev pub total_size : (KnowledgeArtifact → ℕ) → List KnowledgeArtifact → ℕ
total_size size [] = 0
total_size size (artifact ∷ rest) = size artifact + total_size size rest

-- What is packed of some notes.
pub record IsPacked (size : KnowledgeArtifact → ℕ) (artifacts : List KnowledgeArtifact)
    (input : Input) : Type 0 where
  pub few : length input.included ≤ max_artifacts
  pub small : total_size size input.included ≤ max_input_chars
  pub counted : length input.included + input.omitted ≡ length artifacts
  pub given : (a : KnowledgeArtifact) → In a input.included → In a artifacts
  pub fair :
      (a : KnowledgeArtifact)
      → In a artifacts
      → In a input.included
        ⊎ ((length input.included ≡ max_artifacts)
            ⊎ (max_input_chars < total_size size input.included + size a))

module _ (size : KnowledgeArtifact → ℕ) where
  pack_few :
      (count chars : ℕ) (l : List KnowledgeArtifact)
      → count ≤ max_artifacts
      → count + length (pack size count chars l) ≤ max_artifacts
  unfolding pack
  pack_few count chars [] h = omega arith
  pack_few count chars (a ∷ l) h =
      let skipped = pack_few count chars l h in
      let taken = pack_few (1 + count) (chars + size a) l in ground arith

  pack_small :
      (count chars : ℕ) (l : List KnowledgeArtifact)
      → chars ≤ max_input_chars
      → chars + total_size size (pack size count chars l) ≤ max_input_chars
  unfolding pack
  pack_small count chars [] h = omega arith
  pack_small count chars (a ∷ l) h =
      let skipped = pack_small count chars l h in
      let taken = pack_small (1 + count) (chars + size a) l in ground arith

  length-pack :
      (count chars : ℕ) (l : List KnowledgeArtifact) → length (pack size count chars l) ≤ length l
  unfolding pack
  length-pack count chars [] = omega arith
  length-pack count chars (a ∷ l) =
      let skipped = length-pack count chars l in
      let taken = length-pack (1 + count) (chars + size a) l in ground arith

  In-pack :
      (count chars : ℕ) (a : KnowledgeArtifact) (l : List KnowledgeArtifact)
      → In a (pack size count chars l)
      → In a l
  unfolding pack
  In-pack count chars a [] i = i
  In-pack count chars a (b ∷ l) i = elim (Bool-cases (is_full size count chars b)) [
    | inl full ↦ there (In-pack count chars a l (rw (full, pack) at i))
    | inr free ↦ elim (In-cons (rw (free, pack) at i)) [
      | inl same ↦ rw same here
      | inr j ↦ there (In-pack (1 + count) (chars + size b) a l j)
    ]
  ]

  -- A note that is not included is one too many, or too long for what is included in the end.
  abbrev Fair : ℕ → ℕ → KnowledgeArtifact → List KnowledgeArtifact → Type 0
  Fair count chars a l =
      In a (pack size count chars l)
      ⊎ ((count + length (pack size count chars l) ≡ max_artifacts)
          ⊎ (max_input_chars < chars + total_size size (pack size count chars l) + size a))

  left_out :
      (count chars : ℕ) (a : KnowledgeArtifact) (l : List KnowledgeArtifact)
      → count ≤ max_artifacts
      → is_full size count chars a ≡ true
      → (count + length (pack size count chars l) ≡ max_artifacts)
        ⊎ (max_input_chars < chars + total_size size (pack size count chars l) + size a)
  left_out count chars a l h full = elim (Bool-cases (leb max_artifacts count)) [
    | inl many ↦ let few = pack_few count chars l h in inl (ground arith)
    | inr free ↦ inr (ground arith)
  ]

  pack-Fair :
      (count chars : ℕ) (a : KnowledgeArtifact) (l : List KnowledgeArtifact)
      → count ≤ max_artifacts
      → In a l
      → Fair count chars a l
  unfolding pack
  pack-Fair count chars a [] h i = elim i [ ]
  pack-Fair count chars a (b ∷ l) h i = elim (Bool-cases (is_full size count chars b)) [
    | inl full ↦
        rw (full, pack)
          (elim (In-cons i) [
            | inl same ↦ inr (left_out count chars a l h (rw same at full))
            | inr j ↦ pack-Fair count chars a l h j
          ])
    | inr free ↦
        rw (free, pack)
          (elim (In-cons i) [
            | inl same ↦ inl (rw same here)
            | inr j ↦ elim (pack-Fair (1 + count) (chars + size b) a l (ground arith) j) [
              | inl k ↦ inl (there k)
              | inr (inl many) ↦ inr (inl (omega arith))
              | inr (inr long) ↦ inr (inr (omega arith))
            ]
          ])
  ]

  from_start :
      (a : KnowledgeArtifact) (l : List KnowledgeArtifact)
      → Fair 0 0 a l
      → In a (pack size 0 0 l)
        ⊎ ((length (pack size 0 0 l) ≡ max_artifacts)
            ⊎ (max_input_chars < total_size size (pack size 0 0 l) + size a))
  from_start a l (inl i) = inl i
  from_start a l (inr (inl many)) = inr (inl (omega arith))
  from_start a l (inr (inr long)) = inr (inr (omega arith))

module _ (locale : Text → Text → Order) (fingerprint : KnowledgeArtifact → Text)
    (size : KnowledgeArtifact → ℕ) (reviewed : Text → Option Review) where
  -- What a consolidation is given are notes of those there, at most 32 and together within 60000
  -- characters, and the others are counted as omitted; a note that is left out is one when 32 are
  -- included, or would exceed these characters with those included.
  pub dreaming_input-IsPacked :
      (artifacts : List KnowledgeArtifact)
      → IsPacked size artifacts (dreaming_input locale fingerprint size reviewed artifacts)
  unfolding dreaming_input
  dreaming_input-IsPacked artifacts =
      let sorted = sort_by (compare locale fingerprint reviewed) artifacts in
      let as_long = length-sort_by (compare locale fingerprint reviewed) artifacts in
      let shorter = length-pack size 0 0 sorted in
      record {
        few = omega (arith, pack_few size 0 0 sorted (omega arith));
        small = omega (arith, pack_small size 0 0 sorted (omega arith));
        counted = omega arith;
        given = λ a i.
            In-sort_by (compare locale fingerprint reviewed) a artifacts
              (In-pack size 0 0 a sorted i);
        fair = λ a i. from_start size a sorted (
            pack-Fair size 0 0 a sorted (omega arith)
              (sort_by-In (compare locale fingerprint reviewed) a artifacts i));
      }
