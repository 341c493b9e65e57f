-- ===== src/Dreaming/Projection/Fresh.antt =====
-- A note is fresh if it is available and is there as it was.
use codeberg.Base.{
  and_parts, ◌≡◌, inl, inr, true, false, some, List, [], ◌∷◌, All, In, here, there, refl,
  Bool-cases, Option-cases,
}
use codeberg.Text.{Text, same_text}
use codeberg.Text.Same.{same_text_refl, eq_of_same_text}
use codeberg.Dreaming.Artifact.{KnowledgeArtifact, DreamingChange, has_text}
use codeberg.Dreaming.Artifact.Laws.{In-has_text}
use codeberg.Dreaming.Projection.{Knowledge, value_at, is_fresh, all_fresh}

pub record IsFresh (fingerprint : KnowledgeArtifact → Text) (k : Knowledge)
    (before : KnowledgeArtifact) : Type 0 where
  pub present : KnowledgeArtifact
  pub there_is : value_at before.id k.current ≡ some present
  pub is_available : In before.id k.available
  pub unchanged : fingerprint present ≡ fingerprint before

-- Everything that some changes start from is fresh.
abbrev pub AllFresh : (KnowledgeArtifact → Text) → Knowledge → List DreamingChange → Type 0
AllFresh fingerprint k changes =
    All (λ (c : DreamingChange). IsFresh fingerprint k c.before) changes

has_text-In : (t : Text) (us : List Text) → has_text t us ≡ true → In t us
unfolding has_text
has_text-In t [] h = absurd (cc)
has_text-In t (u ∷ us) h = elim (Bool-cases (same_text t u)) [
  | inl same ↦ rw (eq_of_same_text t u same) here
  | inr other ↦ there (has_text-In t us (rw (other, has_text) at h))
]

module _ (fingerprint : KnowledgeArtifact → Text) (k : Knowledge) where
  is_fresh-IsFresh :
      (before : KnowledgeArtifact)
      → is_fresh fingerprint k before ≡ true
      → IsFresh fingerprint k before
  is_fresh-IsFresh before h = elim (Option-cases (value_at before.id k.current)) [
    | inl missing ↦ let h' = rw (missing, is_fresh) at h in absurd (cc)
    | inr (artifact, found) ↦
        let (available, same) =
          and_parts (has_text before.id k.available)
            (same_text (fingerprint artifact) (fingerprint before)) (rw (found, is_fresh) at h) in
        record {
          present = artifact;
          there_is = found;
          is_available = has_text-In before.id k.available available;
          unchanged = eq_of_same_text (fingerprint artifact) (fingerprint before) same;
        }
  ]

  IsFresh-is_fresh :
      (before : KnowledgeArtifact)
      → IsFresh fingerprint k before
      → is_fresh fingerprint k before ≡ true
  IsFresh-is_fresh before f =
      rw
        (
          f.there_is,
          is_fresh,
          In-has_text before.id k.available f.is_available,
          f.unchanged,
          same_text_refl (fingerprint before),
        )
        refl

  pub all_fresh-AllFresh :
      (changes : List DreamingChange)
      → all_fresh fingerprint k changes ≡ true
      → AllFresh fingerprint k changes
  unfolding all_fresh
  all_fresh-AllFresh [] h = tt
  all_fresh-AllFresh (c ∷ changes) h =
      let (first, rest) =
        and_parts (is_fresh fingerprint k c.before) (all_fresh fingerprint k changes) h in
      (is_fresh-IsFresh c.before first, all_fresh-AllFresh changes rest)

  AllFresh-all_fresh :
      (changes : List DreamingChange)
      → AllFresh fingerprint k changes
      → all_fresh fingerprint k changes ≡ true
  unfolding all_fresh
  AllFresh-all_fresh [] _ = refl
  AllFresh-all_fresh (c ∷ changes) (f, rest) =
      rw (IsFresh-is_fresh c.before f, AllFresh-all_fresh changes rest) refl

  pub not_all_fresh :
      (changes : List DreamingChange)
      → all_fresh fingerprint k changes ≡ false
      → ¬ AllFresh fingerprint k changes
  not_all_fresh changes h f = let e = AllFresh-all_fresh changes f in absurd (cc)
