-- ===== src/Dreaming/Plan/Merges.antt =====
-- The merges of an accepted plan.
use codeberg.Base.{
  ◌≡◌, inl, inr, Option, some, List, [], ◌∷◌, ◌++◌, map, All, All-append, All-map, In,
  In-append_left, In-append_right, refl, Bool-cases, Option-cases,
}
use codeberg.Text.{Text}
use codeberg.Dreaming.Artifact.{KnowledgeArtifact}
use codeberg.Dreaming.Plan.{Merge, MergeValue, group, typed_merge, is_merge, validate_merges}
use codeberg.Dreaming.Plan.Valid.{Distinct, notes, IsMerge}
use codeberg.Dreaming.Plan.Accepted.{IsAccepted, is_merge-IsAccepted, Distinct-append}

pub record AreMerges (artifacts : List KnowledgeArtifact) (used : List Text)
    (values : List (Option MergeValue)) (merges : List Merge) : Type 0 where
  pub merges_given : map typed_merge values ≡ map some merges
  pub merges_sound : All (IsMerge artifacts) merges
  pub merges_once : Distinct (notes merges)
  pub merges_free : All (λ id. ¬ In id used) (notes merges)

AreMerges-cons :
    (artifacts : List KnowledgeArtifact) (used : List Text) (value : Option MergeValue)
    (rest : List (Option MergeValue)) (merge : Merge) (merges : List Merge)
    → typed_merge value ≡ some merge
    → IsAccepted artifacts used merge
    → AreMerges artifacts (used ++ group merge) rest merges
    → AreMerges artifacts used (value ∷ rest) (merge ∷ merges)
AreMerges-cons artifacts used value rest merge merges e a m = record {
  merges_given = rw (e, m.merges_given) refl;
  merges_sound = (a.sound, m.merges_sound);
  merges_once =
      Distinct-append (group merge) (notes merges) a.group_once m.merges_once
        (All-map (λ id out i. out (In-append_right used i)) (notes merges) m.merges_free);
  merges_free =
      All-append (λ id. ¬ In id used) (group merge) (notes merges) a.group_free
        (All-map (λ id out i. out (In-append_left (group merge) i)) (notes merges) m.merges_free);
}

pub validate_merges-AreMerges :
    (artifacts : List KnowledgeArtifact) (used : List Text) (values : List (Option MergeValue))
    (merges : List Merge)
    → validate_merges artifacts used values ≡ some merges
    → AreMerges artifacts used values merges
unfolding validate_merges
validate_merges-AreMerges artifacts used [] merges e =
    let none_given : [] ≡ merges = cc in
    rw (← none_given)
      (record { merges_given = refl; merges_sound = tt; merges_once = tt; merges_free = tt })
validate_merges-AreMerges artifacts used (value ∷ rest) merges e =
    elim (Option-cases (typed_merge value)) [
      | inl bad ↦ let e' = rw (bad, validate_merges) at e in absurd (cc)
      | inr (merge, typed) ↦ elim (Bool-cases (is_merge artifacts used merge)) [
        | inr refused ↦ let e' = rw (typed, validate_merges, refused) at e in absurd (cc)
        | inl good ↦ elim (Option-cases (validate_merges artifacts (used ++ group merge) rest)) [
          | inl fails ↦ let e' = rw (typed, validate_merges, good, fails) at e in absurd (cc)
          | inr (later, validated) ↦
              let e' = rw (typed, validate_merges, good, validated) at e in
              let same : merge ∷ later ≡ merges = cc in
              rw (← same) (
                AreMerges-cons artifacts used value rest merge later typed
                  (is_merge-IsAccepted artifacts used merge good)
                  (validate_merges-AreMerges artifacts (used ++ group merge) rest later validated))
        ]
      ]
    ]
