-- ===== src/Dreaming/Plan/Accepted.antt =====
-- The tests of one merge.
use codeberg.Base.{
  and_parts, ◌≤◌, ◌≡◌, inl, inr, not, ◌&&◌, true, List, [], ◌∷◌, ◌++◌, length, All, All-map, All-In,
  In, here, there, In-append, arith, refl, Option-cases,
}
use codeberg.Text.{Text}
use codeberg.Dreaming.Artifact.{
  KnowledgeArtifact, KnowledgeCategory, services, flows, concepts, debugging, same_category,
  has_text, get_artifact,
}
use codeberg.Dreaming.Artifact.Laws.{not-In_of_has}
use codeberg.Dreaming.Plan.{
  Merge, group, is_reason, is_some_text, distinct, known, all_free, same_kind, all_same, is_merge,
}
use codeberg.Dreaming.Plan.Valid.{Distinct, IsNote, IsReason, IsMerge}

same_category-eq : (a b : KnowledgeCategory) → same_category a b ≡ true → a ≡ b
same_category-eq services services h = refl
same_category-eq flows flows h = refl
same_category-eq concepts concepts h = refl
same_category-eq debugging debugging h = refl
same_category-eq _ _ h = absurd (cc)

distinct-Distinct : (ts : List Text) → distinct ts ≡ true → Distinct ts
unfolding distinct
distinct-Distinct [] h = tt
distinct-Distinct (t ∷ ts) h =
    let (out, rest) = and_parts (not (has_text t ts)) (distinct ts) h in
    (not-In_of_has t ts (ground arith), distinct-Distinct ts rest)

pub Distinct-append :
    (xs ys : List Text) → Distinct xs → Distinct ys → All (λ y. ¬ In y xs) ys → Distinct (xs ++ ys)
Distinct-append [] ys p q d = q
Distinct-append (x ∷ xs) ys (out, p) q d =
    let apart : ¬ In x ys = λ i. All-In (λ y. ¬ In y (x ∷ xs)) i d here in
    (
      (λ i. elim (In-append xs i) [ inl j ↦ out j | inr j ↦ apart j ]),
      Distinct-append xs ys p q (All-map (λ y h i. h (there i)) ys d),
    )

all_free-All :
    (artifacts : List KnowledgeArtifact) (used ids : List Text)
    → all_free artifacts used ids ≡ true
    → All (λ id. ¬ In id used) ids
unfolding all_free
all_free-All artifacts used [] h = tt
all_free-All artifacts used (id ∷ ids) h =
    let (first, rest) =
      and_parts (known artifacts id && not (has_text id used)) (all_free artifacts used ids)
        (ground arith) in
    (not-In_of_has id used (ground arith), all_free-All artifacts used ids rest)

same_kind-IsNote :
    (artifacts : List KnowledgeArtifact) (target id : Text)
    → same_kind (get_artifact id artifacts) (get_artifact target artifacts) ≡ true
    → IsNote artifacts target id
same_kind-IsNote artifacts target id h = elim (Option-cases (get_artifact id artifacts)) [
  | inl missing ↦ let h' = rw missing at h in absurd (cc)
  | inr (a, found) ↦ elim (Option-cases (get_artifact target artifacts)) [
    | inl missing ↦ let h' = rw (found, missing) at h in absurd (cc)
    | inr (t, there_is) ↦
        let h' = rw (found, there_is) at h in
        record {
          note = a;
          target_note = t;
          there_is = found;
          target_there_is = there_is;
          same_category_lem = same_category-eq a.category t.category h';
        }
  ]
]

all_same-All :
    (artifacts : List KnowledgeArtifact) (target : Text) (ids : List Text)
    → all_same artifacts target ids ≡ true
    → All (IsNote artifacts target) ids
unfolding all_same
all_same-All artifacts target [] h = tt
all_same-All artifacts target (id ∷ ids) h =
    let (first, rest) =
      and_parts (same_kind (get_artifact id artifacts) (get_artifact target artifacts))
        (all_same artifacts target ids) h in
    (same_kind-IsNote artifacts target id first, all_same-All artifacts target ids rest)

pub is_reason-IsReason : (reason : Text) → is_reason reason ≡ true → IsReason reason
is_reason-IsReason reason h = record { given = ground arith; short = ground arith }

-- What an accepted merge keeps to, given the notes that are used.
pub record IsAccepted (artifacts : List KnowledgeArtifact) (used : List Text) (merge : Merge)
    : Type 0 where
  pub sound : IsMerge artifacts merge
  pub group_once : Distinct (group merge)
  pub group_free : All (λ id. ¬ In id used) (group merge)

pub is_merge-IsAccepted :
    (artifacts : List KnowledgeArtifact) (used : List Text) (merge : Merge)
    → is_merge artifacts used merge ≡ true
    → IsAccepted artifacts used merge
unfolding is_merge
is_merge-IsAccepted artifacts used merge h =
    let sources : is_some_text merge.source_ids ≡ true = ground arith in
    let reason : is_reason merge.reason ≡ true = ground arith in
    let free : all_free artifacts used (group merge) ≡ true = ground arith in
    let once : distinct (group merge) ≡ true = ground arith in
    let same : all_same artifacts merge.target_id (group merge) ≡ true = ground arith in
    record {
      sound = record {
        some_source = not_nil merge.source_ids sources;
        reason = is_reason-IsReason merge.reason reason;
        there_are = all_same-All artifacts merge.target_id (group merge) same;
      };
      group_once = distinct-Distinct (group merge) once;
      group_free = all_free-All artifacts used (group merge) free;
    }
  where
    not_nil : (ts : List Text) → is_some_text ts ≡ true → 1 ≤ length ts
    not_nil [] e = absurd (cc)
    not_nil (t ∷ ts) e = omega arith
