-- ===== src/JobQueue/Recovery/Writes.antt =====
-- The temporary files of atomic writes whose writer is gone: `removeAbandonedWrites` of recovery.ts
-- and `isProcessAlive` of policy.ts. Such a file stands beside the job files of a directory, and
-- nothing else reads it. `kill` is the operating system's, with signal 0.
use codeberg.Base.{
  ℕ, ◌≡◌, ◌≤◌, ◌<◌, ◌==◌, leb, ◌||◌, not, if◌then◌else◌, Bool, true, false, List, In, In-keep_if,
  In-keep_if_of, keep_if, arith, Bool-cases, inl, inr, ◌⊎◌, refl,
}
use Prim.Native.String.{String}
use codeberg.JobQueue.Job.{JobStatus}

pub data Killed : Type 0 where
  reached no_process refused : Killed

-- A file of a directory that is no job file: one whose name is a job's, the number of a process and
-- a unique part, or any other.
pub data Leftover : Type 0 where
  temporary : ℕ → ℕ → String → Leftover
  foreign : String → Leftover

abbrev pub max_safe_integer : ℕ
max_safe_integer = 9007199254740991

module _ (kill : ℕ → Killed) where
  unfoldable pub is_process_alive : ℕ → Bool
  is_process_alive pid =
      if not (leb pid max_safe_integer) || pid == 0
      then true
      else (elim (kill pid) [ no_process ↦ false | _ ↦ true ])

  abbrev pub is_kept : Leftover → Bool
  is_kept (foreign name) = true
  is_kept (temporary job pid unique) = is_process_alive pid

  -- The directories of all four statuses are gone through.
  unfoldable pub remove_abandoned_writes : (JobStatus → List Leftover) → JobStatus → List Leftover
  remove_abandoned_writes files status = keep_if is_kept (files status)

  Killed-cases :
      (k : Killed)
      → (k ≡ no_process) ⊎ (elim k as (λ x. Bool) [ no_process ↦ false | _ ↦ true ] ≡ true)
  Killed-cases reached = inr refl
  Killed-cases no_process = inl refl
  Killed-cases refused = inr refl

  -- A process that the system knows nothing of.
  pub record IsGone (pid : ℕ) : Type 0 where
    pub numbered : 0 < pid
    pub safe : pid ≤ max_safe_integer
    pub unknown : kill pid ≡ no_process

  IsGone-cases : (pid : ℕ) → IsGone pid ⊎ (is_process_alive pid ≡ true)
  unfolding is_process_alive
  IsGone-cases pid = elim (Bool-cases (not (leb pid max_safe_integer) || pid == 0)) [
    | inl odd ↦ inr (rw odd refl)
    | inr fine ↦ elim (Killed-cases (kill pid)) [
      | inl gone ↦ inl (record { numbered = ground arith; safe = ground arith; unknown = gone })
      | inr there_is ↦ inr (rw fine there_is)
    ]
  ]

  dead_of_IsGone : (pid : ℕ) → IsGone pid → is_process_alive pid ≡ false
  unfolding is_process_alive
  dead_of_IsGone pid g =
      let fine : (not (leb pid max_safe_integer) || pid == 0) ≡ false =
        ground (arith, g.numbered, g.safe) in
      rw (fine, g.unknown) refl

  pub data IsAbandoned : Leftover → Type 0 where
    writer_gone :
        {job pid : ℕ} {unique : String} → IsGone pid → IsAbandoned (temporary job pid unique)

  kept_of_alive :
      (job pid : ℕ) (unique : String)
      → is_process_alive pid ≡ true
      → IsAbandoned (temporary job pid unique)
      → ⊥
  kept_of_alive job pid unique alive (writer_gone gone) =
      let dead = dead_of_IsGone pid gone in absurd (cc)

  IsAbandoned-cases : (x : Leftover) → IsAbandoned x ⊎ ((is_kept x ≡ true) × (IsAbandoned x → ⊥))
  IsAbandoned-cases (foreign name) = inr (refl, λ h. elim h [ ])
  IsAbandoned-cases (temporary job pid unique) = elim (IsGone-cases pid) [
    | inl gone ↦ inl (writer_gone gone)
    | inr alive ↦ inr (alive, kept_of_alive job pid unique alive)
  ]

  dropped_of_IsAbandoned : (x : Leftover) → IsAbandoned x → is_kept x ≡ false
  dropped_of_IsAbandoned (foreign name) h = elim h [ ]
  dropped_of_IsAbandoned (temporary job pid unique) (writer_gone gone) = dead_of_IsGone pid gone

  -- removeAbandonedWrites leaves in a directory exactly those of its other files that are not the
  -- temporary file of a process that is gone, where gone means that its number is positive and
  -- safe and that a signal finds no such process.
  pub remove_abandoned_writes-In :
      (files : JobStatus → List Leftover) (status : JobStatus) (x : Leftover)
      → (In x (remove_abandoned_writes files status) → In x (files status) × ¬ IsAbandoned x)
        × (In x (files status) → ¬ IsAbandoned x → In x (remove_abandoned_writes files status))
  unfolding remove_abandoned_writes
  remove_abandoned_writes-In files status x = elim (IsAbandoned-cases x) [
    | inl gone ↦
        let dropped = dropped_of_IsAbandoned x gone in
        (
          λ i. let (j, kept) = In-keep_if is_kept (files status) i in absurd (cc),
          λ i alive. absurd (alive gone),
        )
    | inr (kept, alive) ↦ (
      λ i. ((In-keep_if is_kept (files status) i).0, alive),
      λ i other. In-keep_if_of is_kept (files status) i kept,
    )
  ]
