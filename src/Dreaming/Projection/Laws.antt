-- ===== src/Dreaming/Projection/Laws.antt =====
-- The projection applies reports one after the other, each while it is fresh, until none is.
use codeberg.Base.{
  ℕ, zero, suc, ◌+◌, ◌<◌, ◌≡◌, ◌⊎◌, inl, inr, true, false, Option, some, List, [], ◌∷◌, ◌++◌,
  length, keep_if, All, In, here, there, In-cons, In-append, In-append_left, In-append_right,
  In-keep_if, In-keep_if_of, length-append, arith, refl, sym, subst, ap, Bool-cases,
}
use codeberg.Text.{Text}
use codeberg.Dreaming.Sort.{Order}
use codeberg.Dreaming.Sort.Laws.{In-sort_by, sort_by-In}
use codeberg.Dreaming.Artifact.{KnowledgeArtifact, DreamingReport, is_applied}
use codeberg.Dreaming.Projection.Fresh.{AllFresh, all_fresh-AllFresh, not_all_fresh}
use codeberg.Dreaming.Projection.{
  Knowledge, Pass, apply_changes, all_fresh, pass, passes, compare_reports, applied_reports, start,
  values_of, project_dreaming_knowledge,
}

-- Reports applied one after the other, each while all of its notes are fresh.
pub data Applies (fingerprint : KnowledgeArtifact → Text)
    : Knowledge → List DreamingReport → Knowledge → Type 0 where
  done : {k : Knowledge} → Applies fingerprint k [] k
  apply :
      {k l : Knowledge} {report : DreamingReport} {rest : List DreamingReport}
      → AllFresh fingerprint k report.changes
      → Applies fingerprint (apply_changes report.changes k) rest l
      → Applies fingerprint k (report ∷ rest) l

-- Reports parted into those that were applied, in their order, and those that remain.
pub record IsParted (reports applied remaining : List DreamingReport) : Type 0 where
  pub size : length applied + length remaining ≡ length reports
  pub from_applied : (r : DreamingReport) → In r applied → In r reports
  pub from_remaining : (r : DreamingReport) → In r remaining → In r reports
  pub each : (r : DreamingReport) → In r reports → In r applied ⊎ In r remaining

IsParted-first :
    (r : DreamingReport) {rs xs ms : List DreamingReport}
    → IsParted rs xs ms
    → IsParted (r ∷ rs) (r ∷ xs) ms
IsParted-first r p = record {
  size = omega (arith, p.size);
  from_applied =
      λ x i. elim (In-cons i) [ inl same ↦ rw same here | inr j ↦ there (p.from_applied x j) ];
  from_remaining = λ x i. there (p.from_remaining x i);
  each = λ x i. elim (In-cons i) [
    | inl same ↦ inl (rw same here)
    | inr j ↦ elim (p.each x j) [ inl k ↦ inl (there k) | inr k ↦ inr k ]
  ];
}

IsParted-later :
    (r : DreamingReport) {rs xs ms : List DreamingReport}
    → IsParted rs xs ms
    → IsParted (r ∷ rs) xs (r ∷ ms)
IsParted-later r p = record {
  size = omega (arith, p.size);
  from_applied = λ x i. there (p.from_applied x i);
  from_remaining =
      λ x i. elim (In-cons i) [ inl same ↦ rw same here | inr j ↦ there (p.from_remaining x j) ];
  each = λ x i. elim (In-cons i) [
    | inl same ↦ inr (rw same here)
    | inr j ↦ elim (p.each x j) [ inl k ↦ inl k | inr k ↦ inr (there k) ]
  ];
}

IsParted-append :
    {rs xs ms ys ns : List DreamingReport}
    → IsParted rs xs ms
    → IsParted ms ys ns
    → IsParted rs (xs ++ ys) ns
IsParted-append {xs} {ys} p q = record {
  size = omega (arith, p.size, q.size, length-append xs ys);
  from_applied = λ x i. elim (In-append xs i) [
    | inl j ↦ p.from_applied x j
    | inr j ↦ p.from_remaining x (q.from_applied x j)
  ];
  from_remaining = λ x i. p.from_remaining x (q.from_remaining x i);
  each = λ x i. elim (p.each x i) [
    | inl j ↦ inl (In-append_left ys j)
    | inr j ↦ elim (q.each x j) [ inl k ↦ inl (In-append_right xs k) | inr k ↦ inr k ]
  ];
}

module _ (fingerprint : KnowledgeArtifact → Text) where
  Applies-append :
      {k l m : Knowledge} {xs ys : List DreamingReport}
      → Applies fingerprint k xs l
      → Applies fingerprint l ys m
      → Applies fingerprint k (xs ++ ys) m
  Applies-append done q = q
  Applies-append (apply fresh p) q = apply fresh (Applies-append p q)

  -- No report that remains is fresh.
  abbrev pub AllStale : Knowledge → List DreamingReport → Type 0
  AllStale k rs = All (λ (r : DreamingReport). ¬ AllFresh fingerprint k r.changes) rs

  record IsPass (k : Knowledge) (rs : List DreamingReport) (p : Pass) : Type 0 where
    order : List DreamingReport
    applies : Applies fingerprint k order p.knowledge
    parted : IsParted rs order p.remaining
    fewer : p.progressed ≡ true → length p.remaining < length rs
    stale : p.progressed ≡ false → (p.knowledge ≡ k) × AllStale k p.remaining

  pass-IsPass : (k : Knowledge) (rs : List DreamingReport) → IsPass k rs (pass fingerprint k rs)
  unfolding pass
  pass-IsPass k [] = record {
    order = [];
    applies = done;
    parted = record {
      size = omega arith;
      from_applied = λ r i. i;
      from_remaining = λ r i. i;
      each = λ r i. inl i;
    };
    fewer = λ e. absurd (cc);
    stale = λ e. (refl, tt);
  }
  pass-IsPass k (r ∷ rs) = elim (Bool-cases (all_fresh fingerprint k r.changes)) [
    | inl fresh ↦
        let p = pass-IsPass (apply_changes r.changes k) rs in
        rw (fresh, pass)
          (record {
            order = r ∷ p.order;
            applies = apply (all_fresh-AllFresh fingerprint k r.changes fresh) p.applies;
            parted = IsParted-first r p.parted;
            fewer = λ e. omega (arith, p.parted.size);
            stale = λ e. absurd (cc);
          })
    | inr stale ↦
        let p = pass-IsPass k rs in
        rw (stale, pass)
          (record {
            order = p.order;
            applies = p.applies;
            parted = IsParted-later r p.parted;
            fewer = λ e. omega (arith, p.fewer e);
            stale = λ e.
                let (same, all) = p.stale e in
                (same, (not_all_fresh fingerprint k r.changes stale, all));
          })
  ]

  record IsEnd (k : Knowledge) (rs : List DreamingReport) (p : Pass) : Type 0 where
    order : List DreamingReport
    applies : Applies fingerprint k order p.knowledge
    parted : IsParted rs order p.remaining
    stale : AllStale p.knowledge p.remaining

  -- One pass more than there are reports is enough.
  passes-IsEnd :
      (n : ℕ) (k : Knowledge) (rs : List DreamingReport)
      → length rs < n
      → (p : Pass) × (passes fingerprint n k rs ≡ some p) × IsEnd k rs p
  unfolding passes pass
  passes-IsEnd zero k rs h = absurd (omega arith)
  passes-IsEnd (suc n) k rs h =
      let first = pass-IsPass k rs in
      elim (Bool-cases (pass fingerprint k rs).progressed) [
        | inr still ↦
            let (same, stale) = first.stale still in
            rw (still, passes)
              (
                pass fingerprint k rs,
                refl,
                record {
                  order = first.order;
                  applies = first.applies;
                  parted = first.parted;
                  stale =
                      subst (λ x. AllStale x (pass fingerprint k rs).remaining) (sym same) stale;
                },
              )
        | inl progressed ↦
            let fewer = first.fewer progressed in
            let (p, e, end) =
              passes-IsEnd n (pass fingerprint k rs).knowledge (pass fingerprint k rs).remaining
                (omega arith) in
            rw (progressed, passes)
              (
                p,
                e,
                record {
                  order = first.order ++ end.order;
                  applies = Applies-append first.applies end.applies;
                  parted = IsParted-append first.parted end.parted;
                  stale = end.stale;
                },
              )
      ]

-- A result of the projection.
pub record IsProjected (fingerprint : KnowledgeArtifact → Text) (artifacts : List KnowledgeArtifact)
    (reports : List DreamingReport) (fresh_ids : List Text)
    (result : Option (List KnowledgeArtifact)) : Type 0 where
  pub order : List DreamingReport
  pub remaining : List DreamingReport
  pub final : Knowledge
  pub ends : result ≡ some final.current
  pub applies : Applies fingerprint (start artifacts fresh_ids) order final
  pub given : (r : DreamingReport) → In r order → In r reports × (is_applied r.status ≡ true)
  pub each :
      (r : DreamingReport) → In r reports → is_applied r.status ≡ true → In r order ⊎ In r remaining
  pub stale : AllStale fingerprint final remaining

In-applied_reports :
    (locale : Text → Text → Order) (r : DreamingReport) (reports : List DreamingReport)
    → In r (applied_reports locale reports)
    → In r reports × (is_applied r.status ≡ true)
unfolding applied_reports
In-applied_reports locale r reports i =
    In-keep_if (λ (x : DreamingReport). is_applied x.status) reports
      (In-sort_by (compare_reports locale) r (keep_if (λ x. is_applied x.status) reports) i)

applied_reports-In :
    (locale : Text → Text → Order) (r : DreamingReport) (reports : List DreamingReport)
    → In r reports
    → is_applied r.status ≡ true
    → In r (applied_reports locale reports)
unfolding applied_reports
applied_reports-In locale r reports i e =
    sort_by-In (compare_reports locale) r (keep_if (λ x. is_applied x.status) reports)
      (In-keep_if_of (λ (x : DreamingReport). is_applied x.status) reports i e)

-- The loop of the projection ends after at most one pass more than there are applied reports. Its
-- result is what the notes become when some of the applied reports are applied one after the
-- other, each while everything it starts from is available and unchanged, and none of the others
-- could be applied after them.
pub project_dreaming_knowledge-IsProjected :
    (fingerprint : KnowledgeArtifact → Text) (locale : Text → Text → Order)
    (artifacts : List KnowledgeArtifact) (reports : List DreamingReport) (fresh_ids : List Text)
    → IsProjected fingerprint artifacts reports fresh_ids
        (project_dreaming_knowledge fingerprint locale artifacts reports fresh_ids)
unfolding project_dreaming_knowledge
project_dreaming_knowledge-IsProjected fingerprint locale artifacts reports fresh_ids =
    let applied = applied_reports locale reports in
    let (p, e, end) =
      passes-IsEnd fingerprint (suc (length applied)) (start artifacts fresh_ids) applied
        (omega arith) in
    record {
      order = end.order;
      remaining = p.remaining;
      final = p.knowledge;
      ends = ap values_of e;
      applies = end.applies;
      given = λ r i. In-applied_reports locale r reports (end.parted.from_applied r i);
      each = λ r i a. end.parted.each r (applied_reports-In locale r reports i a);
      stale = end.stale;
    }
