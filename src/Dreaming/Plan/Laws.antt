-- ===== src/Dreaming/Plan/Laws.antt =====
-- What a plan that is accepted keeps to.
use codeberg.Base.{
  suc, ◌≡◌, inl, inr, leb, ◌&&◌, true, false, Option, none, some, List, [], ◌∷◌, map, length, All,
  arith, refl, sym, ◌∙◌, ap, Bool-cases, Option-cases,
}
use codeberg.Text.{Text, same_text}
use codeberg.Text.Same.{same_text_refl}
use codeberg.Dreaming.Artifact.{KnowledgeArtifact, get_artifact}
use codeberg.Dreaming.Plan.{
  Link, DreamingPlan, MergeValue, LinkValue, PlanValue, typed_merge, typed_link, is_reason, known,
  validate_merges, is_link, validate_links, plan_of, validate_sized, validate_fields, redacted,
  validate_plan,
}
use codeberg.Dreaming.Plan.Valid.{IsLink, IsPlan}
use codeberg.Dreaming.Plan.Accepted.{is_reason-IsReason}
use codeberg.Dreaming.Plan.Merges.{validate_merges-AreMerges}

length-map : {A B : Type 0} (f : A → B) (xs : List A) → length (map f xs) ≡ length xs
length-map f [] = refl
length-map f (x ∷ xs) = ap suc (length-map f xs)

known-note :
    (artifacts : List KnowledgeArtifact) (id : Text)
    → known artifacts id ≡ true
    → (note : KnowledgeArtifact) × (get_artifact id artifacts ≡ some note)
known-note artifacts id h = elim (Option-cases (get_artifact id artifacts)) [
  | inl missing ↦ let h' = rw (missing, known) at h in absurd (cc)
  | inr found ↦ found
]

is_link-IsLink :
    (artifacts : List KnowledgeArtifact) (link : Link)
    → is_link artifacts link ≡ true
    → IsLink artifacts link
unfolding is_link
is_link-IsLink artifacts link h =
    let from : known artifacts link.from_id ≡ true = ground arith in
    let to : known artifacts link.to_id ≡ true = ground arith in
    let differ : same_text link.from_id link.to_id ≡ false = ground arith in
    let reason : is_reason link.reason ≡ true = ground arith in
    record {
      from_known = known-note artifacts link.from_id from;
      to_known = known-note artifacts link.to_id to;
      apart = λ e.
          let same = same_text_refl link.from_id in let differ' = rw (← e) at differ in absurd (cc);
      reason = is_reason-IsReason link.reason reason;
    }

validate_links-All :
    (artifacts : List KnowledgeArtifact) (values : List (Option LinkValue)) (links : List Link)
    → validate_links artifacts values ≡ some links
    → (map typed_link values ≡ map some links) × All (IsLink artifacts) links
unfolding validate_links
validate_links-All artifacts [] links e =
    let none_given : [] ≡ links = cc in rw (← none_given) (refl, tt)
validate_links-All artifacts (value ∷ rest) links e = elim (Option-cases (typed_link value)) [
  | inl bad ↦ let e' = rw (bad, validate_links) at e in absurd (cc)
  | inr (link, typed) ↦ elim (Bool-cases (is_link artifacts link)) [
    | inr refused ↦ let e' = rw (typed, validate_links, refused) at e in absurd (cc)
    | inl good ↦ elim (Option-cases (validate_links artifacts rest)) [
      | inl fails ↦ let e' = rw (typed, validate_links, good, fails) at e in absurd (cc)
      | inr (later, validated) ↦
          let e' = rw (typed, validate_links, good, validated) at e in
          let same : link ∷ later ≡ links = cc in
          let (given, sound) = validate_links-All artifacts rest later validated in
          rw (← same) (rw (typed, given) refl, (is_link-IsLink artifacts link good, sound))
    ]
  ]
]

validate_sized-IsPlan :
    (artifacts : List KnowledgeArtifact) (value : PlanValue) (summary : Text)
    (merges : List (Option MergeValue)) (links : List (Option LinkValue)) (plan : DreamingPlan)
    → value.summary ≡ some summary
    → value.merges ≡ some merges
    → value.links ≡ some links
    → validate_sized artifacts summary merges links ≡ some plan
    → IsPlan artifacts value plan
unfolding validate_sized
validate_sized-IsPlan artifacts value summary merges links plan s m l e =
    elim (Bool-cases
      (leb (length summary) 2000 && leb (length merges) 16 && leb (length links) 64)) [
        | inr long ↦ let e' = rw long at e in absurd (cc)
        | inl short ↦ elim (Option-cases (validate_merges artifacts [] merges)) [
          | inl bad ↦ let e' = rw (short, bad, plan_of) at e in absurd (cc)
          | inr (good_merges, em) ↦ elim (Option-cases (validate_links artifacts links)) [
            | inl bad ↦ let e' = rw (short, em, bad, plan_of) at e in absurd (cc)
            | inr (good_links, el) ↦
                let e' = rw (short, em, el, plan_of) at e in
                let same : record { summary = summary; merges = good_merges; links = good_links }
                    ≡ plan =
                  cc in
                let ms = validate_merges-AreMerges artifacts [] merges good_merges em in
                let (given, sound) = validate_links-All artifacts links good_links el in
                let merges_size = as_many typed_merge merges good_merges ms.merges_given in
                let links_size = as_many typed_link links good_links given in
                rw (← same) (record {
                  summary_given = s;
                  summary_short = ground arith;
                  few_merges = ground arith;
                  few_links = ground arith;
                  merges_lem = ms.merges_sound;
                  once = ms.merges_once;
                  links_lem = sound;
                  given_merges = (merges, m, ms.merges_given);
                  given_links = (links, l, given);
                })
          ]
        ]
      ]
  where
    as_many :
        {A B : Type 0} (f : A → Option B) (xs : List A) (ys : List B)
        → map f xs ≡ map some ys
        → length xs ≡ length ys
    as_many f xs ys e = sym (length-map f xs) ∙ ap length e ∙ length-map some ys

validate_fields-IsPlan :
    (artifacts : List KnowledgeArtifact) (value : PlanValue) (plan : DreamingPlan) (s : Option Text)
    (m : Option (List (Option MergeValue))) (l : Option (List (Option LinkValue)))
    → value.summary ≡ s
    → value.merges ≡ m
    → value.links ≡ l
    → validate_fields artifacts s m l ≡ some plan
    → IsPlan artifacts value plan
validate_fields-IsPlan artifacts value plan (some s) (some m) (some l) es em el e =
    validate_sized-IsPlan artifacts value s m l plan es em el e
validate_fields-IsPlan artifacts value plan (some s) (some m) none es em el e = absurd (cc)
validate_fields-IsPlan artifacts value plan (some s) none l es em el e = absurd (cc)
validate_fields-IsPlan artifacts value plan none m l es em el e = absurd (cc)

-- A plan that is accepted is, but for the redaction, the one that the model answered with. No note
-- stands in two of its merges or twice in one; each merge has a source, and all its notes are
-- there and of one category; each link joins two different notes that are there; reasons are not
-- blank, and the sizes are bounded.
pub validate_plan-IsPlan :
    (redact : DreamingPlan → DreamingPlan) (artifacts : List KnowledgeArtifact) (value : PlanValue)
    (result : DreamingPlan)
    → validate_plan redact artifacts (some value) ≡ some result
    → (plan : DreamingPlan) × (result ≡ redact plan) × IsPlan artifacts value plan
unfolding validate_plan
validate_plan-IsPlan redact artifacts value result e =
    elim (Option-cases (validate_fields artifacts value.summary value.merges value.links)) [
      | inl bad ↦ let e' = rw (bad, redacted) at e in absurd (cc)
      | inr (plan, validated) ↦
          let e' = rw (validated, redacted) at e in
          (
            plan,
            cc,
            validate_fields-IsPlan artifacts value plan value.summary value.merges value.links refl
                refl refl validated,
          )
    ]
