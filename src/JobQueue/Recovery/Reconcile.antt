-- ===== src/JobQueue/Recovery/Reconcile.antt =====
-- Which file `reconcileStates` keeps of a job that a crash left in two directories.
use codeberg.Base.{
  ℕ, ◌+◌, ◌≤◌, ◌==◌, ◌≡◌, ◌⊎◌, if◌then◌else◌, Bool, false, Option, none, some, arith, refl, List,
  [], ◌∷◌, inl, inr, ap, sym, subst, In, ◌∙◌,
}
use codeberg.JobQueue.Job.{
  JobStatus, pending, processing, completed, failed, KnowledgeJob, same_status,
}
use codeberg.JobQueue.Disk.{File, holds, Disk, file, find, parsed}
use codeberg.JobQueue.Disk.Laws.{IsOrdered}
use codeberg.JobQueue.Invariant.{IsNamedBy, IsReadable, copies, present}
use codeberg.JobQueue.Recovery.Winner.{
  split_winner-times, split_winner-newest, split_winner-In, In-opt_list, In-opt_list_of, In-last,
  In-last_of,
}
use codeberg.JobQueue.Recovery.{beats, split_winner, reconcile_states}
use codeberg.JobQueue.Recovery.Groups.{times, losers, group_at, file-reconcile_states}

unlinked_rest :
    (b : Bool) (m : ℕ) (f : Option File)
    → (if b then 1 else 0) + m ≡ present f
    → (if m == 0 then f else none) ≡ (if b then f else none)
unlinked_rest b m none h = ground arith
unlinked_rest b m (some f) h = ground arith

module _ (d : Disk) (o : IsOrdered d) (n : (s : JobStatus) (k : ℕ) → IsNamedBy s k (file d s k))
    (j : ℕ) (r : IsReadable d j) where
  candidates : List KnowledgeJob
  candidates = group_at (λ s. file d s j)

  candidates-times : (s : JobStatus) → times s candidates ≡ present (file d s j)
  unfolding candidates
  candidates-times s = ground (
    arith,
    n processing j,
    n pending j,
    n failed j,
    n completed j,
    r processing,
    r pending,
    r failed,
    r completed,
  )

  In-candidates :
      (s : JobStatus) (job : KnowledgeJob) → file d s j ≡ some (holds job) → In job candidates
  unfolding candidates
  In-candidates processing job e =
      In-opt_list_of (parsed (file d processing j)) _ (inl (ground arith))
  In-candidates pending job e =
      In-opt_list_of (parsed (file d processing j)) _
        (inr (In-opt_list_of (parsed (file d pending j)) _ (inl (ground arith))))
  In-candidates failed job e = In-opt_list_of (parsed (file d processing j)) _ (
      inr (
        In-opt_list_of (parsed (file d pending j)) _
          (inr (In-opt_list_of (parsed (file d failed j)) _ (inl (ground arith))))))
  In-candidates completed job e = In-opt_list_of (parsed (file d processing j)) _ (
      inr (
        In-opt_list_of (parsed (file d pending j)) _ (
          inr (
            In-opt_list_of (parsed (file d failed j)) _
              (inr (In-last_of (parsed (file d completed j)) (ground arith)))))))

  filed :
      (s : JobStatus) {job : KnowledgeJob}
      → parsed (file d s j) ≡ some job
      → file d job.status j ≡ some (holds job)
  filed s e = ground (arith, n s j)

  candidate-filed :
      {job : KnowledgeJob} → In job candidates → file d job.status j ≡ some (holds job)
  unfolding candidates
  candidate-filed i = elim (In-opt_list (parsed (file d processing j)) _ i) [
    | inl e ↦ filed processing e
    | inr i' ↦ elim (In-opt_list (parsed (file d pending j)) _ i') [
      | inl e ↦ filed pending e
      | inr i'' ↦ elim (In-opt_list (parsed (file d failed j)) _ i'') [
        | inl e ↦ filed failed e
        | inr i''' ↦ filed completed (In-last (parsed (file d completed j)) i''')
      ]
    ]
  ]

  file-reconciled :
      (s : JobStatus)
      → file (reconcile_states d) s j
        ≡ (if times s (losers candidates) == 0 then file d s j else none)
  unfolding candidates
  file-reconciled s = file-reconcile_states d o n s j

  -- The files of the id after the reconciliation, where some could be read before.
  file-survivor :
      (w : KnowledgeJob) (l : List KnowledgeJob)
      → candidates ≡ w ∷ l
      → (s : JobStatus)
      → file (reconcile_states d) s j
        ≡ (if same_status (split_winner w l).0.status s then file d s j else none)
  file-survivor w l e s =
      file-reconciled s
      ∙ rw e (
          unlinked_rest (same_status (split_winner w l).0.status s) (times s (split_winner w l).1)
            (file d s j) (split_winner-times s w l ∙ ap (times s) (sym e) ∙ candidates-times s))

  kept : (w : KnowledgeJob) (l : List KnowledgeJob) → candidates ≡ w ∷ l → KnowledgeJob
  kept w l e = (split_winner w l).0

  kept-filed :
      (w : KnowledgeJob) (l : List KnowledgeJob) (e : candidates ≡ w ∷ l)
      → file d (kept w l e).status j ≡ some (holds (kept w l e))
  unfolding kept
  kept-filed w l e = candidate-filed (rw e (split_winner-In w l))

  file-kept :
      (w : KnowledgeJob) (l : List KnowledgeJob) (e : candidates ≡ w ∷ l) (s : JobStatus)
      → file (reconcile_states d) s j
        ≡ (if same_status (kept w l e).status s then some (holds (kept w l e)) else none)
  unfolding kept
  file-kept w l e s = file-survivor w l e s ∙ ground (arith, kept-filed w l e)

  kept-newest :
      (w : KnowledgeJob) (l : List KnowledgeJob) (e : candidates ≡ w ∷ l)
      → (s : JobStatus) (job : KnowledgeJob) → file d s j ≡ some (holds job)
      → beats job (kept w l e) ≡ false
  unfolding kept
  kept-newest w l e s job h = split_winner-newest w l job (subst (In job) e (In-candidates s job h))

  file-none : candidates ≡ [] → (s : JobStatus) → file (reconcile_states d) s j ≡ none
  file-none e s =
      let zero_times = ap (times s) (sym e) ∙ candidates-times s in
      file-reconciled s ∙ rw e (ground (arith, zero_times))

  list_cases :
      (l : List KnowledgeJob)
      → (l ≡ []) ⊎ ((w : KnowledgeJob) × (rest : List KnowledgeJob) × (l ≡ w ∷ rest))
  list_cases [] = inl refl
  list_cases (w ∷ rest) = inr (w, rest, refl)

  -- Where directories are ordered, files named by their jobs and the id readable, reconcileStates
  -- leaves at most one file of an id; it is one of the files that were there and no removed one
  -- sorts before it, and an id without files gets none.
  pub reconcile_states_survivor :
      (copies (reconcile_states d) j ≤ 1)
      × ((s : JobStatus) (job : KnowledgeJob)
          → file d s j ≡ some (holds job)
          → (w : KnowledgeJob) × (find (reconcile_states d) j ≡ some w)
            × (beats job w ≡ false)
            × (file d w.status j ≡ some (holds w)))
      × (copies d j ≡ 0 → copies (reconcile_states d) j ≡ 0)
  unfolding find
  reconcile_states_survivor = elim (list_cases candidates) [
    | inr (w, l, e) ↦ (
      simp (file-kept w l e) (ground arith),
      λ s job h. (
        kept w l e,
        simp (file-kept w l e) (ground arith),
        kept-newest w l e s job h,
        kept-filed w l e,
      ),
      λ z. ground (arith, kept-filed w l e),
    )
    | inl e ↦ (
      simp (file-none e) (omega arith),
      λ s job h. absurd (elim (subst (In job) e (In-candidates s job h)) [ ]),
      λ z. simp (file-none e) (omega arith),
    )
  ]
