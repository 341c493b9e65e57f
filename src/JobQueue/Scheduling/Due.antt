-- ===== src/JobQueue/Scheduling/Due.antt =====
-- `nextDueAt` is the first moment at which there is something to do.
use codeberg.Base.{
  ℕ, ◌≤◌, ◌≡◌, ◌⊎◌, Bool, true, false, Option, none, some, List, [], ◌∷◌, map, min, keep_if, In,
  In-cons, here, there, arith, inl, inr, refl, In-append_left, In-append_right, In-append, In-map,
  In-map_of, In-keep_if, In-keep_if_of, ◌↔◌, Option-cases, subst,
}
use codeberg.JobQueue.Job.{pending, processing, JobType, KnowledgeJob}
use codeberg.JobQueue.Disk.{Disk, list}
use codeberg.JobQueue.Execution.{is_claimable}
use codeberg.JobQueue.Recovery.{is_leased}
use codeberg.JobQueue.Scheduling.{or_now, min_from, minimum, is_wanted, due_times, next_due_at}

min_from-le : (x : ℕ) (l : List ℕ) {y : ℕ} → In y (x ∷ l) → min_from x l ≤ y
min_from-le x [] {y} i = elim (In-cons i) [ inl e ↦ omega arith | inr k ↦ elim k [ ] ]
min_from-le x (z ∷ l) {y} i = elim (In-cons i) [
  | inl e ↦ omega (arith, min_from-le (min x z) l here)
  | inr k ↦ elim (In-cons k) [
    | inl e ↦ omega (arith, min_from-le (min x z) l here)
    | inr k' ↦ min_from-le (min x z) l (there k')
  ]
]

min_cases : (x y : ℕ) → (min x y ≡ x) ⊎ (min x y ≡ y)
min_cases x y = omega arith

min_from-In : (x : ℕ) (l : List ℕ) → In (min_from x l) (x ∷ l)
min_from-In x [] = here
min_from-In x (y ∷ l) = elim (In-cons (min_from-In (min x y) l)) [
  | inr k ↦ there (there k)
  | inl e ↦ elim (min_cases x y) [
    | inl left ↦ rw (← e, left) here
    | inr right ↦ rw (← e, right) (there here)
  ]
]

-- The least of a list, by what it is.
minimum_bounds : (l : List ℕ) (t : ℕ) → minimum l ≡ some t → In t l × ((y : ℕ) → In y l → t ≤ y)
minimum_bounds [] t e = absurd (cc)
minimum_bounds (x ∷ l) t e =
    let same : min_from x l ≡ t = ground arith in
    rw (← same) (min_from-In x l, λ y i. min_from-le x l i)

minimum-none : (l : List ℕ) → minimum l ≡ none → l ≡ []
minimum-none [] e = refl
minimum-none (x ∷ l) e = absurd (cc)

module _ (now : ℕ) (type : Option JobType) (enabled : KnowledgeJob → Bool) (d : Disk) where
  pending_due :
      (job : KnowledgeJob)
      → In job (list d pending)
      → is_wanted type enabled job ≡ true
      → In (or_now job.next_attempt_at now) (due_times now type enabled d)
  pending_due job i w =
      In-append_left
        (map (λ x. or_now x.lease_expires_at now)
          (keep_if (is_wanted type enabled) (list d processing)))
        (In-map_of (λ x. or_now x.next_attempt_at now)
          (In-keep_if_of (is_wanted type enabled) (list d pending) i w))

  processing_due :
      (job : KnowledgeJob)
      → In job (list d processing)
      → is_wanted type enabled job ≡ true
      → In (or_now job.lease_expires_at now) (due_times now type enabled d)
  processing_due job i w =
      In-append_right
        (map (λ x. or_now x.next_attempt_at now)
          (keep_if (is_wanted type enabled) (list d pending)))
        (In-map_of (λ x. or_now x.lease_expires_at now)
          (In-keep_if_of (is_wanted type enabled) (list d processing) i w))

  -- Something to do at the time `u`: a pending job may be claimed, or a lease has run out.
  abbrev pub HasWork : ℕ → Type 0
  HasWork u =
      ((job : KnowledgeJob) × In job (list d pending) × (is_claimable u type enabled job ≡ true))
      ⊎ ((job : KnowledgeJob) × In job (list d processing)
          × (is_wanted type enabled job ≡ true)
          × (is_leased u job ≡ false))

  work-due : (u : ℕ) → HasWork u → (y : ℕ) × In y (due_times now type enabled d) × (now ≤ u → y ≤ u)
  work-due u (inl (job, i, h)) =
      (or_now job.next_attempt_at now, pending_due job i (ground arith), λ later. ground arith)
  work-due u (inr (job, i, w, h)) =
      (or_now job.lease_expires_at now, processing_due job i w, λ later. ground arith)

  due-work : (t u : ℕ) → now ≤ u → t ≤ u → In t (due_times now type enabled d) → HasWork u
  due-work t u later h i =
      elim (In-append
        (map (λ x. or_now x.next_attempt_at now)
          (keep_if (is_wanted type enabled) (list d pending)))
        i) [
          | inl p ↦
              let (job, k, e) =
                In-map (λ x. or_now x.next_attempt_at now)
                  (keep_if (is_wanted type enabled) (list d pending)) p in
              let (k', w) = In-keep_if (is_wanted type enabled) (list d pending) k in
              inl (job, k', ground arith)
          | inr p ↦
              let (job, k, e) =
                In-map (λ x. or_now x.lease_expires_at now)
                  (keep_if (is_wanted type enabled) (list d processing)) p in
              let (k', w) = In-keep_if (is_wanted type enabled) (list d processing) k in
              inr (job, k', w, ground arith)
        ]

  abbrev pub Tells : Option ℕ → Type 0
  Tells none = (u : ℕ) → ¬ HasWork u
  Tells (some t) = (u : ℕ) → now ≤ u → HasWork u ↔ (t ≤ u)

  -- nextDueAt gives the first time, from now on, at which a job of the wanted kind may be claimed
  -- or a lease of one has run out; if it gives none there never is such a time.
  pub next_due_at-Tells : Tells (next_due_at now type enabled d)
  unfolding next_due_at
  next_due_at-Tells = elim (Option-cases (minimum (due_times now type enabled d))) [
    | inl empty ↦ rw empty λ u work.
        let (y, i, _) = work-due u work in
        elim (subst (In y) (minimum-none (due_times now type enabled d) empty) i) [ ]
    | inr (t, e) ↦ rw e λ u later.
        let (first, least) = minimum_bounds (due_times now type enabled d) t e in
        (
          λ work. let (y, i, h) = work-due u work in omega (arith, least y i, h later),
          λ h. due-work t u later h first,
        )
  ]
