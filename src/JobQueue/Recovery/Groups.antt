-- ===== src/JobQueue/Recovery/Groups.antt =====
-- What `reconcileStates` does to the files of one id: it depends on the group of that id alone.
use codeberg.Base.{
  ℕ, ◌+◌, ◌==◌, ◌≡◌, ◌≢◌, if◌then◌else◌, Option, none, arith, refl, List, [], ◌∷◌, ◌++◌, keep_if,
  Bool-cases, inl, inr, ap, subst, sym, ◌∙◌,
}
use mathlib.Core.List.{append-nil, append_assoc}
use codeberg.JobQueue.Job.{
  JobStatus, pending, processing, completed, failed, KnowledgeJob, same_status,
}
use codeberg.JobQueue.Disk.{File, Disk, file, list, parsed, unlink}
use codeberg.JobQueue.Disk.Laws.{file-unlink, IsOrdered}
use codeberg.JobQueue.Listing.{opt_list, keep_if-list}
use codeberg.JobQueue.Invariant.{IsNamedBy}
use codeberg.JobQueue.Recovery.{
  Groups, add_to_group, by_id, split_winner, unlink_all, reconcile_group, reconcile_groups,
  listed_jobs, reconcile_states,
}

-- The group of an id; an id that has none has the empty one.
group : ℕ → Groups → List KnowledgeJob
group j [] = []
group j ((id, jobs) ∷ groups) = if id == j then jobs else group j groups

abbrev HasNo : ℕ → Groups → Type 0
HasNo j [] = Unit {0}
HasNo j ((id, jobs) ∷ groups) = (id ≢ j) × HasNo j groups

abbrev AreDistinct : Groups → Type 0
AreDistinct [] = Unit {0}
AreDistinct ((id, jobs) ∷ groups) = HasNo id groups × AreDistinct groups

group-add_to_group :
    (j : ℕ) (job : KnowledgeJob) (g : Groups)
    → group j (add_to_group job g) ≡ (if job.job_id == j then group j g ++ job ∷ [] else group j g)
unfolding group add_to_group
group-add_to_group j job [] = ground arith
group-add_to_group j job ((id, jobs) ∷ g) = ground (arith, group-add_to_group j job g)

add_to_group-HasNo :
    (j : ℕ) (job : KnowledgeJob) (g : Groups)
    → job.job_id ≢ j
    → HasNo j g
    → HasNo j (add_to_group job g)
unfolding add_to_group
add_to_group-HasNo j job [] n h = (n, tt)
add_to_group-HasNo j job ((id, jobs) ∷ g) n h = ground (arith, add_to_group-HasNo j job g n h.1)

add_to_group-AreDistinct :
    (job : KnowledgeJob) (g : Groups) → AreDistinct g → AreDistinct (add_to_group job g)
unfolding add_to_group
add_to_group-AreDistinct job [] h = (tt, tt)
add_to_group-AreDistinct job ((id, jobs) ∷ g) h = elim (Bool-cases (id == job.job_id)) [
  | inl same ↦ rw same h
  | inr other ↦
      rw other
        (add_to_group-HasNo id job g (λ e. ground arith) h.0, add_to_group-AreDistinct job g h.1)
]

abbrev with_id : ℕ → List KnowledgeJob → List KnowledgeJob
with_id j = keep_if (λ job. job.job_id == j)

by_id_lem :
    (j : ℕ) (l : List KnowledgeJob) (g : Groups)
    → AreDistinct g
    → (group j (by_id g l) ≡ group j g ++ with_id j l) × AreDistinct (by_id g l)
unfolding by_id
by_id_lem j [] g h = (sym (append-nil (group j g)), h)
by_id_lem j (job ∷ l) g h =
    let (e, h') = by_id_lem j l (add_to_group job g) (add_to_group-AreDistinct job g h) in
    (
      ground
          (arith, e, group-add_to_group j job g, append_assoc (group j g) (job ∷ []) (with_id j l)),
      h',
    )

file-unlink_all :
    (d : Disk) (id j : ℕ) (l : List KnowledgeJob) (s : JobStatus)
    → id ≢ j
    → file (unlink_all id l d) s j ≡ file d s j
unfolding unlink_all
file-unlink_all d id j [] s n = refl
file-unlink_all d id j (job ∷ l) s n =
    ground
      (arith, file-unlink_all (unlink d job.status id) id j l s n, file-unlink d job.status s id j)

file-reconcile_group :
    (d : Disk) (id j : ℕ) (l : List KnowledgeJob) (s : JobStatus)
    → id ≢ j
    → file (reconcile_group id l d) s j ≡ file d s j
unfolding reconcile_group
file-reconcile_group d id j [] s n = refl
file-reconcile_group d id j (job ∷ l) s n = file-unlink_all d id j (split_winner job l).1 s n

-- How often a status occurs.
abbrev pub times : JobStatus → List KnowledgeJob → ℕ
times s [] = 0
times s (job ∷ l) = (if same_status job.status s then 1 else 0) + times s l

abbrev pub losers : List KnowledgeJob → List KnowledgeJob
losers [] = []
losers (job ∷ l) = (split_winner job l).1

file-unlink_all_self :
    (d : Disk) (j : ℕ) (l : List KnowledgeJob) (s : JobStatus)
    → file (unlink_all j l d) s j ≡ (if times s l == 0 then file d s j else none)
unfolding unlink_all
file-unlink_all_self d j [] s = refl
file-unlink_all_self d j (job ∷ l) s =
    ground
      (arith, file-unlink_all_self (unlink d job.status j) j l s, file-unlink d job.status s j j)

file-reconcile_group_self :
    (d : Disk) (j : ℕ) (l : List KnowledgeJob) (s : JobStatus)
    → file (reconcile_group j l d) s j ≡ (if times s (losers l) == 0 then file d s j else none)
unfolding reconcile_group
file-reconcile_group_self d j [] s = refl
file-reconcile_group_self d j (job ∷ l) s = file-unlink_all_self d j (split_winner job l).1 s

group-HasNo : (j : ℕ) (g : Groups) → HasNo j g → group j g ≡ []
unfolding group
group-HasNo j [] h = refl
group-HasNo j ((id, jobs) ∷ g) h = ground (arith, group-HasNo j g h.1)

file-reconcile_groups :
    (j : ℕ) (s : JobStatus) (g : Groups) (d : Disk)
    → AreDistinct g
    → file (reconcile_groups g d) s j
      ≡ (if times s (losers (group j g)) == 0 then file d s j else none)
unfolding reconcile_groups group
file-reconcile_groups j s [] d h = refl
file-reconcile_groups j s ((id, jobs) ∷ g) d (h, hs) = elim (Bool-cases (id == j)) [
  | inr other ↦ rw other (
      file-reconcile_groups j s g (reconcile_group id jobs d) hs
      ∙ ap (λ f. if times s (losers (group j g)) == 0 then f else none)
          (file-reconcile_group d id j jobs s (λ e. ground arith)))
  | inl same ↦
      let e : id ≡ j = ground arith in
      rw (same, e)
        (file-reconcile_groups j s g (reconcile_group j jobs d) hs
          ∙ rw (group-HasNo j g (subst (λ k. HasNo k g) e h))
              (file-reconcile_group_self d j jobs s))
]

-- The group of an id under `reconcileStates`: what can be read of its four files, in the order of
-- `statuses`.
abbrev pub group_at : (JobStatus → Option File) → List KnowledgeJob
group_at f =
    opt_list (parsed (f processing))
    ++ (opt_list (parsed (f pending))
        ++ (opt_list (parsed (f failed)) ++ opt_list (parsed (f completed))))

with_id-append : (j : ℕ) (l m : List KnowledgeJob) → with_id j (l ++ m) ≡ with_id j l ++ with_id j m
with_id-append j [] m = refl
with_id-append j (job ∷ l) m = ground (arith, with_id-append j l m)

module _ (d : Disk) (o : IsOrdered d)
    (n : (s : JobStatus) (k : ℕ) → IsNamedBy s k (file d s k)) where
  with_id-listed_jobs : (j : ℕ) → with_id j (listed_jobs d) ≡ group_at (λ s. file d s j)
  with_id-listed_jobs j = rw (
    with_id-append j (list d processing) (list d pending ++ (list d failed ++ list d completed)),
    with_id-append j (list d pending) (list d failed ++ list d completed),
    with_id-append j (list d failed) (list d completed),
    keep_if-list d processing (o processing) (n processing) j,
    keep_if-list d pending (o pending) (n pending) j,
    keep_if-list d failed (o failed) (n failed) j,
    keep_if-list d completed (o completed) (n completed) j,
  )

  pub file-reconcile_states :
      (s : JobStatus) (j : ℕ)
      → file (reconcile_states d) s j
        ≡ (if times s (losers (group_at (λ t. file d t j))) == 0 then file d s j else none)
  unfolding reconcile_states group
  file-reconcile_states s j =
      let (e, h) = by_id_lem j (listed_jobs d) [] tt in
      file-reconcile_groups j s (by_id [] (listed_jobs d)) d h
      ∙ ap (λ g. if times s (losers g) == 0 then file d s j else none) (e ∙ with_id-listed_jobs j)
