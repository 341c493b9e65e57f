-- ===== src/JobQueue/Recovery/Winner.antt =====
-- The winner of a group of jobs with one id, as `reconcileStates` sorts it, and membership in the
-- groups that it forms.
use codeberg.Base.{
  ◌≡◌, ◌⊎◌, if◌then◌else◌, Bool, true, false, Option, none, some, arith, refl, List, [], ◌∷◌, ◌++◌,
  Bool-cases, inl, inr, In, In-cons, here, there,
}
use codeberg.JobQueue.Job.{JobStatus, KnowledgeJob}
use codeberg.JobQueue.Listing.{opt_list}
use codeberg.JobQueue.Recovery.{beats, split_winner}
use codeberg.JobQueue.Recovery.Groups.{times}

step-times :
    (s : JobStatus) (b : Bool) (w job : KnowledgeJob) (l : List KnowledgeJob)
    (r : KnowledgeJob × List KnowledgeJob)
    → times s (r.0 ∷ r.1) ≡ times s ((if b then job else w) ∷ l)
    → times s (r.0 ∷ (if b then w else job) ∷ r.1) ≡ times s (w ∷ job ∷ l)
step-times s true w job l r h = omega arith
step-times s false w job l r h = omega arith

pub split_winner-times :
    (s : JobStatus) (w : KnowledgeJob) (l : List KnowledgeJob)
    → times s ((split_winner w l).0 ∷ (split_winner w l).1) ≡ times s (w ∷ l)
unfolding split_winner
split_winner-times s w [] = refl
split_winner-times s w (job ∷ l) =
    step-times s (beats job w) w job l (split_winner (if beats job w then job else w) l)
      (split_winner-times s (if beats job w then job else w) l)

beats_trans : (a b c : KnowledgeJob) → beats b a ≡ false → beats c b ≡ false → beats c a ≡ false
unfolding beats
beats_trans a b c h k = ground arith

beats_irrefl : (a : KnowledgeJob) → beats a a ≡ false
unfolding beats
beats_irrefl a = ground arith

beats-asym : (a b : KnowledgeJob) → beats b a ≡ true → beats a b ≡ false
unfolding beats
beats-asym a b h = ground arith

-- No job of a group sorts before its winner.
pub split_winner-newest :
    (w : KnowledgeJob) (l : List KnowledgeJob) (job : KnowledgeJob)
    → In job (w ∷ l)
    → beats job (split_winner w l).0 ≡ false
unfolding split_winner
split_winner-newest w [] job i = elim (In-cons i) [
  | inl e ↦ rw (← e) (beats_irrefl w)
  | inr k ↦ elim k [ ]
]
split_winner-newest w (x ∷ l) job i = elim (Bool-cases (beats x w)) [
  | inl b ↦
      rw (b, split_winner)
        (newer b (split_winner x l).0 (λ k. split_winner-newest x l job k)
          (split_winner-newest x l x here) i)
  | inr b ↦
      rw (b, split_winner)
        (older b (split_winner w l).0 (λ k. split_winner-newest w l job k)
          (split_winner-newest w l w here) i)
]
  where
    newer :
        beats x w ≡ true
        → (best : KnowledgeJob) → (In job (x ∷ l) → beats job best ≡ false)
        → beats x best ≡ false
        → In job (w ∷ x ∷ l)
        → beats job best ≡ false
    newer b best ih new i = elim (In-cons i) [
      | inl e ↦ rw (← e) (beats_trans best x w new (beats-asym w x b))
      | inr k ↦ ih k
    ]

    older :
        beats x w ≡ false
        → (best : KnowledgeJob) → (In job (w ∷ l) → beats job best ≡ false)
        → beats w best ≡ false
        → In job (w ∷ x ∷ l)
        → beats job best ≡ false
    older b best ih old i = elim (In-cons i) [
      | inl e ↦ rw (← e) old
      | inr k ↦ elim (In-cons k) [
        | inl e ↦ rw (← e) (beats_trans best w x old b)
        | inr k' ↦ ih (there k')
      ]
    ]

pub split_winner-In : (w : KnowledgeJob) (l : List KnowledgeJob) → In (split_winner w l).0 (w ∷ l)
unfolding split_winner
split_winner-In w [] = here
split_winner-In w (job ∷ l) = elim (Bool-cases (beats job w)) [
  | inl b ↦ rw b (there (split_winner-In job l))
  | inr b ↦ rw b (skip (split_winner-In w l))
]
  where
    skip : {a : KnowledgeJob} → In a (w ∷ l) → In a (w ∷ job ∷ l)
    skip here = here
    skip (there i) = there (there i)

pub In-opt_list :
    (o : Option KnowledgeJob) (l : List KnowledgeJob) {a : KnowledgeJob}
    → In a (opt_list o ++ l)
    → (o ≡ some a) ⊎ In a l
In-opt_list none l i = inr i
In-opt_list (some b) l here = inl refl
In-opt_list (some b) l (there i) = inr i

pub In-opt_list_of :
    (o : Option KnowledgeJob) (l : List KnowledgeJob) {a : KnowledgeJob}
    → (o ≡ some a) ⊎ In a l
    → In a (opt_list o ++ l)
In-opt_list_of none l (inl e) = absurd (cc)
In-opt_list_of none l (inr i) = i
In-opt_list_of (some b) l {a} (inl e) = let same : b ≡ a = ground arith in rw same here
In-opt_list_of (some b) l (inr i) = there i

pub In-last : (o : Option KnowledgeJob) {a : KnowledgeJob} → In a (opt_list o) → o ≡ some a
In-last none i = elim i [ ]
In-last (some b) i = elim (In-cons i) [ inl e ↦ cc | inr k ↦ elim k [ ] ]

pub In-last_of : (o : Option KnowledgeJob) {a : KnowledgeJob} → o ≡ some a → In a (opt_list o)
In-last_of none e = absurd (cc)
In-last_of (some b) {a} e = let same : b ≡ a = ground arith in rw same here
