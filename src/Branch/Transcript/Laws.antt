-- ===== src/Branch/Transcript/Laws.antt =====
-- What a branch holds.
use codeberg.Base.{
  ℕ, zero, suc, ◌-◌, ◌≤◌, ◌<◌, ◌≡◌, ◌≢◌, ◌⊎◌, inl, inr, Bool, true, false, Option, none, some, List,
  [], ◌∷◌, length, take, get_elem?, arith, refl, Bool-cases,
}
use codeberg.History.Messages.{Role, user, assistant, system, tool}
use codeberg.Branch.Transcript.{
  Truncated, at, negative, infinity, minus_infinity, not_a_number, is_user, is_assistant,
  BranchOptions, clamp, has_role, asks, snap, branch_end_index, remapped, requested,
  branch_transcript,
}

clamp-le : (last : ℕ) (i : Truncated) → clamp last i ≤ last
clamp-le last (at n) = omega arith
clamp-le last (negative n) = omega arith
clamp-le last minus_infinity = omega arith
clamp-le last infinity = omega arith
clamp-le last not_a_number = omega arith

module _ {ℓ} {A : Type ℓ} (role : A → Role) where
  has_role-le :
      (p : Role → Bool) (l : List A) (i : ℕ) → has_role role p (get_elem? l i) ≡ true → i < length l
  has_role-le p [] i h = absurd (cc)
  has_role-le p (x ∷ l) zero h = omega arith
  has_role-le p (x ∷ l) (suc i) h = omega (arith, has_role-le p l i h)

  not_both : (r : Role) → is_user r ≡ true → is_assistant r ≡ false
  not_both user h = refl
  not_both assistant h = absurd (cc)
  not_both system h = refl
  not_both tool h = refl

  not_both_at :
      (m : Option A) → has_role role is_assistant m ≡ true → has_role role is_user m ≡ false
  not_both_at none h = refl
  not_both_at (some x) h = elim (Bool-cases (is_user (role x))) [
    | inl u ↦ let v = not_both (role x) u in absurd (cc)
    | inr v ↦ v
  ]

  -- The end of a branch lies in the chat, does not cut a question from its answer, and is the index
  -- asked for or the next.
  pub record IsBranchEnd (messages : List A) (i : Truncated) (end : ℕ) : Type ℓ where
    pub within : end < length messages
    pub complete : asks role messages end ≡ false
    pub near :
        (end ≡ clamp (length messages - 1) i)
        ⊎ ((end ≡ suc (clamp (length messages - 1) i))
            × (asks role messages (clamp (length messages - 1) i) ≡ true))

  asked :
      (messages : List A) (i : ℕ)
      → asks role messages i ≡ true
      → (has_role role is_user (get_elem? messages i) ≡ true)
        × (has_role role is_assistant (get_elem? messages (suc i)) ≡ true)
  asked messages i h = (ground arith, ground arith)

  snap-IsBranchEnd :
      (messages : List A) (i : Truncated)
      → clamp (length messages - 1) i < length messages
      → IsBranchEnd messages i (snap role messages (clamp (length messages - 1) i))
  snap-IsBranchEnd messages i inside =
      elim (Bool-cases (asks role messages (clamp (length messages - 1) i))) [
        | inr alone ↦ rw alone (record { within = inside; complete = alone; near = inl refl })
        | inl answered ↦
            let answer = (asked messages (clamp (length messages - 1) i) answered).1 in
            let other =
              not_both_at (get_elem? messages (suc (clamp (length messages - 1) i))) answer in
            rw answered (record {
              within =
                  has_role-le is_assistant messages (suc (clamp (length messages - 1) i)) answer;
              complete = rw other refl;
              near = inr (refl, answered);
            })
      ]

  -- branchTranscript copies, up to remapping, the messages of a chat that is not empty through an
  -- index that lies in the chat, is the requested one brought into range or the answer right after
  -- it, and does not stand at a question that the next message answers.
  pub branch_transcript-IsBranchEnd :
      (messages : List A) (o : BranchOptions A)
      → messages ≢ []
      → (end : ℕ) × IsBranchEnd messages (requested (length messages - 1) o.through_index) end
        × (branch_transcript role messages o ≡ remapped o.remap (take (suc end) messages))
  unfolding branch_transcript branch_end_index
  branch_transcript-IsBranchEnd [] o filled = absurd (filled refl)
  branch_transcript-IsBranchEnd (x ∷ l) o filled =
      let last = length (x ∷ l) - 1 in
      (
        snap role (x ∷ l) (clamp last (requested last o.through_index)),
        snap-IsBranchEnd (x ∷ l) (requested last o.through_index)
            (omega (arith, clamp-le last (requested last o.through_index))),
        refl,
      )
