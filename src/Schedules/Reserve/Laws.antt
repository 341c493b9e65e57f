-- ===== src/Schedules/Reserve/Laws.antt =====
-- Making room removes old runs only, and makes enough.
use codeberg.Base.{
  ℕ, zero, suc, ◌+◌, ◌-◌, ◌≤◌, ◌<◌, ◌≡◌, ◌==◌, ◌⊎◌, leb, ltb, not, Bool, true, false, some, List,
  [], ◌∷◌, length, take, keep_if, In, In-cons, here, there, In-keep_if, In-keep_if_of, All, All-map,
  Bool-cases, inl, inr, arith, refl, ap, subst, ◌∙◌,
}
use codeberg.Schedules.Job.{ScheduledRun, is_active}
use codeberg.Schedules.Reserve.{
  of_chat, is_terminal, insert_by_age, sort_by_age, has_id, id_set, stays, reserve_schedule,
}

-- Some job of the list has this id.
abbrev Occurs : List ScheduledRun → ℕ → Type 0
Occurs l s = (t : ScheduledRun) × In t l × (t.id ≡ s)

abbrev Distinct : List ℕ → Type 0
Distinct [] = Unit {0}
Distinct (x ∷ rest) = (has_id x rest ≡ false) × Distinct rest

In-take : (n : ℕ) (l : List ScheduledRun) {t : ScheduledRun} → In t (take n l) → In t l
In-take zero l i = elim i [ ]
In-take (suc n) [] i = elim i [ ]
In-take (suc n) (x ∷ l) i = elim (In-cons i) [
  | inl same ↦ rw same here
  | inr j ↦ there (In-take n l j)
]

In-insert_by_age :
    (x : ScheduledRun) (l : List ScheduledRun) {t : ScheduledRun}
    → In t (insert_by_age x l)
    → (x ≡ t) ⊎ In t l
unfolding insert_by_age
In-insert_by_age x [] i = In-cons i
In-insert_by_age x (y ∷ l) i = elim (Bool-cases (leb x.created_at y.created_at)) [
  | inl le ↦ In-cons (rw (le, insert_by_age) at i)
  | inr gt ↦ elim (In-cons (rw (gt, insert_by_age) at i)) [
    | inl same ↦ inr (rw same here)
    | inr j ↦ elim (In-insert_by_age x l j) [ inl same ↦ inl same | inr k ↦ inr (there k) ]
  ]
]

In-sort_by_age : (l : List ScheduledRun) {t : ScheduledRun} → In t (sort_by_age l) → In t l
unfolding sort_by_age
In-sort_by_age [] i = i
In-sort_by_age (x ∷ l) i = elim (In-insert_by_age x (sort_by_age l) i) [
  | inl same ↦ rw same here
  | inr j ↦ there (In-sort_by_age l j)
]

id_set-Occurs : (l : List ScheduledRun) → All (Occurs l) (id_set l)
unfolding id_set
id_set-Occurs [] = tt
id_set-Occurs (x ∷ l) =
    let rest = All-map (λ s (o : Occurs l s). (o.0, there o.1, o.2)) (id_set l) (id_set-Occurs l) in
    elim (Bool-cases (has_id x.id (id_set l))) [
      | inl old ↦ rw (old, id_set) rest
      | inr new ↦ rw (new, id_set) ((x, here, refl), rest)
    ]

id_set-Distinct : (l : List ScheduledRun) → Distinct (id_set l)
unfolding id_set
id_set-Distinct [] = tt
id_set-Distinct (x ∷ l) = elim (Bool-cases (has_id x.id (id_set l))) [
  | inl old ↦ rw (old, id_set) (id_set-Distinct l)
  | inr new ↦ rw (new, id_set) (new, id_set-Distinct l)
]

Occurs-of_has_id :
    (l : List ScheduledRun) (ids : List ℕ) (s : ℕ)
    → All (Occurs l) ids
    → has_id s ids ≡ true
    → Occurs l s
unfolding has_id
Occurs-of_has_id l [] s o h = absurd (cc)
Occurs-of_has_id l (x ∷ ids) s o h = elim (Bool-cases (x == s)) [
  | inl same ↦ let e : x ≡ s = ground arith in (o.0.0, o.0.1, o.0.2 ∙ e)
  | inr other ↦ Occurs-of_has_id l ids s o.1 (rw (other, has_id) at h)
]

keep_if_comm :
    (p q : ScheduledRun → Bool) (l : List ScheduledRun)
    → keep_if p (keep_if q l) ≡ keep_if q (keep_if p l)
keep_if_comm p q [] = refl
keep_if_comm p q (x ∷ l) = ground (arith, keep_if_comm p q l)

abbrev is_not : ℕ → ScheduledRun → Bool
is_not s job = not (s == job.id)

keep_if-stays :
    (s : ℕ) (ids : List ℕ) (l : List ScheduledRun)
    → keep_if (stays (s ∷ ids)) l ≡ keep_if (stays ids) (keep_if (is_not s) l)
unfolding has_id
keep_if-stays s ids [] = refl
keep_if-stays s ids (x ∷ l) = ground (arith, keep_if-stays s ids l)

length-keep_if : (p : ScheduledRun → Bool) (l : List ScheduledRun) → length (keep_if p l) ≤ length l
length-keep_if p [] = omega arith
length-keep_if p (x ∷ l) = ground (arith, length-keep_if p l)

length-is_not :
    (s : ℕ) (l : List ScheduledRun) {t : ScheduledRun}
    → In t l
    → t.id ≡ s
    → suc (length (keep_if (is_not s) l)) ≤ length l
length-is_not s [] i e = elim i [ ]
length-is_not s (x ∷ l) {t} i e = elim (In-cons i) [
  | inl same ↦
      let eq : x.id ≡ s = ap (λ (y : ScheduledRun). y.id) same ∙ e in
      ground (arith, length-keep_if (is_not s) l)
  | inr j ↦ let ih = length-is_not s l j e in ground arith
]

Occurs-still :
    (s : ℕ) (l : List ScheduledRun) (ids : List ℕ)
    → has_id s ids ≡ false
    → All (Occurs l) ids
    → All (Occurs (keep_if (is_not s) l)) ids
unfolding has_id
Occurs-still s l [] h o = tt
Occurs-still s l (x ∷ ids) h ((t, i, e), o) =
    let kept : is_not s t ≡ true = ground arith in
    ((t, In-keep_if_of (is_not s) l i kept, e), Occurs-still s l ids (ground arith) o)

removes_enough :
    (ids : List ℕ) (l : List ScheduledRun)
    → Distinct ids
    → All (Occurs l) ids
    → length (keep_if (stays ids) l) + length ids ≤ length l
removes_enough [] l d o = omega (arith, length-keep_if (stays []) l)
removes_enough (s ∷ ids) l d ((t, i, e), o) = rw (keep_if-stays s ids l) (
    omega (
      arith,
      length-is_not s l i e,
      removes_enough ids (keep_if (is_not s) l) d.1 (Occurs-still s l ids d.0 o),
    ))

-- The ids that are removed are those of old runs of the chat.
module _ (jobs : List ScheduledRun) (chat_id : ℕ) where
  abbrev owned : List ScheduledRun
  owned = keep_if (of_chat chat_id) jobs

  abbrev removed : List ScheduledRun
  removed = take (length owned - 99) (sort_by_age (keep_if is_terminal owned))

  In-removed : {t : ScheduledRun} → In t removed → In t owned × (is_terminal t ≡ true)
  In-removed i = In-keep_if is_terminal owned (
      In-sort_by_age (keep_if is_terminal owned)
        (In-take (length owned - 99) (sort_by_age (keep_if is_terminal owned)) i))

  removed-Occurs : All (Occurs owned) (id_set removed)
  removed-Occurs =
      All-map (λ s (o : Occurs removed s). (o.0, (In-removed o.1).0, o.2)) (id_set removed)
        (id_set-Occurs removed)

  -- What making room promises.
  pub record IsReserved (kept : List ScheduledRun) : Type 0 where
    pub room : length (keep_if (of_chat chat_id) kept) < 100
    pub fewer : (job : ScheduledRun) → In job kept → In job jobs
    pub others :
        (job : ScheduledRun)
        → In job jobs
        → ((other : ScheduledRun) → In other jobs → other.id ≡ job.id → other ≡ job)
        → ((job.chat_id == chat_id) ≡ false) ⊎ (is_active job.status ≡ true)
        → In job kept

  stays_lem :
      (job : ScheduledRun)
      → ((other : ScheduledRun) → In other jobs → other.id ≡ job.id → other ≡ job)
      → ((job.chat_id == chat_id) ≡ false) ⊎ (is_active job.status ≡ true)
      → stays (id_set removed) job ≡ true
  stays_lem job unique reason = elim (Bool-cases (has_id job.id (id_set removed))) [
    | inr kept ↦ rw kept refl
    | inl gone ↦
        let (t, i, e) =
          Occurs-of_has_id removed (id_set removed) job.id (id_set-Occurs removed) gone in
        let (own, old) = In-removed i in
        let (inside, mine) = In-keep_if (of_chat chat_id) jobs own in
        let same = unique t inside e in
        let old' : is_terminal job ≡ true = rw (← same) old in
        let mine' : of_chat chat_id job ≡ true = rw (← same) mine in absurd (ground arith)
  ]

  -- If making room for one more schedule of a chat succeeds, the chat has fewer than a hundred
  -- jobs left; every job left was there; and every job that alone has its id, and belongs to
  -- another chat or is scheduled or running, is still there.
  pub reserve_schedule-IsReserved :
      (kept : List ScheduledRun) → reserve_schedule jobs chat_id ≡ some kept → IsReserved kept
  unfolding reserve_schedule
  reserve_schedule-IsReserved kept e = elim (Bool-cases (ltb (length owned) 100)) [
    | inl few ↦
        let e' = rw (few, reserve_schedule) at e in
        let same : jobs ≡ kept = cc in
        subst IsReserved same
          (record { room = ground arith; fewer = λ job i. i; others = λ job i u r. i })
    | inr many ↦ elim (Bool-cases (leb 100 (length owned - length (id_set removed)))) [
      | inl full ↦ let e' = rw (many, reserve_schedule, full) at e in absurd (cc)
      | inr room ↦
          let e' = rw (many, reserve_schedule, room) at e in
          let same : keep_if (stays (id_set removed)) jobs ≡ kept = cc in
          subst IsReserved same (record {
            room = rw (keep_if_comm (of_chat chat_id) (stays (id_set removed)) jobs) (
                ground (
                  arith,
                  removes_enough (id_set removed) owned (id_set-Distinct removed) removed-Occurs,
                ));
            fewer = λ job i. (In-keep_if (stays (id_set removed)) jobs i).0;
            others = λ job i u r. In-keep_if_of (stays (id_set removed)) jobs i (stays_lem job u r);
          })
    ]
  ]
