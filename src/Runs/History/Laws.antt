-- ===== src/Runs/History/Laws.antt =====
-- What a run is given to continue: the saved messages, then the new ones.
use codeberg.Base.{
  ℕ, ◌<◌, ◌&&◌, ◌≡◌, ap, false, Bool-cases, inl, inr, true, some, List, [], ◌∷◌, ◌++◌, length, drop,
  map, arith, refl, subst,
}
use codeberg.Runs.Run.{
  Role, user, assistant, system, same_role, is_assistant, Message, Trigger, regenerates,
}
use codeberg.Runs.History.{
  matches_history, ends_with_answer, without_last, prefix_of, all_match, is_valid_length, continued,
}

-- The id and the role of a message, by which the web page recognises it.
abbrev pub mark : Message → ℕ × Role
mark message = (message.id, message.role)

-- A last message that the assistant gave.
abbrev IsAnswered : List Message → List Message → Type 0
IsAnswered before messages =
    (last : Message) × ((messages ≡ before ++ last ∷ []) × (last.role ≡ assistant))

-- What of a saved chat is kept: all of it, or all but the last answer where it is made again.
pub data IsKept (saved : List Message) (trigger : Trigger) : List Message → Type 0 where
  goes_on : regenerates trigger ≡ false → IsKept saved trigger saved
  unanswered : ((before : List Message) → ¬ IsAnswered before saved) → IsKept saved trigger saved
  made_again :
      (kept : List Message)
      → regenerates trigger ≡ true
      → IsAnswered kept saved
      → IsKept saved trigger kept

-- How many messages the web page has to submit.
pub data IsSized (trigger : Trigger) (submitted kept : ℕ) : Type 0 where
  as_many : regenerates trigger ≡ true → submitted ≡ kept → IsSized trigger submitted kept
  with_more : regenerates trigger ≡ false → kept < submitted → IsSized trigger submitted kept

-- What a continued chat promises.
pub record IsContinued (saved : List Message) (trigger : Trigger)
    (submitted messages : List Message) : Type 0 where
  pub kept : List Message
  pub of_saved : IsKept saved trigger kept
  pub saved_first : messages ≡ kept ++ drop (length kept) submitted
  pub sized : IsSized trigger (length submitted) (length kept)
  pub same_marks : map mark messages ≡ map mark submitted

assistant_lem : (role : Role) → is_assistant role ≡ true → role ≡ assistant
assistant_lem assistant e = refl
assistant_lem user e = absurd (cc)
assistant_lem system e = absurd (cc)

-- A chat that ends with an answer is that answer after the others.
without_last-IsAnswered :
    (messages : List Message)
    → ends_with_answer messages ≡ true
    → IsAnswered (without_last messages) messages
unfolding ends_with_answer without_last
without_last-IsAnswered [] e = absurd (cc)
without_last-IsAnswered (message ∷ []) e = (message, (refl, assistant_lem message.role e))
without_last-IsAnswered (message ∷ (next ∷ rest)) e =
    let (last, (whole, role)) = without_last-IsAnswered (next ∷ rest) e in
    (last, (ap (λ x. message ∷ x) whole, role))

ends_with_answer-append :
    (before : List Message) (last : Message)
    → last.role ≡ assistant
    → ends_with_answer (before ++ last ∷ []) ≡ true
unfolding ends_with_answer
ends_with_answer-append [] last e = rw e refl
ends_with_answer-append (a ∷ []) last e = rw e refl
ends_with_answer-append (a ∷ (b ∷ rest)) last e = ends_with_answer-append (b ∷ rest) last e

prefix_of-IsKept :
    (saved : List Message) (trigger : Trigger) → IsKept saved trigger (prefix_of trigger saved)
prefix_of-IsKept saved trigger = elim (Bool-cases (regenerates trigger)) [
  | inr on ↦ rw on (goes_on on)
  | inl again ↦ elim (Bool-cases (ends_with_answer saved)) [
    | inl answered ↦
        rw (again, answered)
          (made_again (without_last saved) again (without_last-IsAnswered saved answered))
    | inr asked ↦
        rw (again, asked)
          (unanswered (λ before answer.
            let ends = ends_with_answer-append before answer.0 answer.1.1 in
            let ends' = rw (← answer.1.0) at ends in cc))
  ]
]

is_valid_length-IsSized :
    (trigger : Trigger) (submitted saved : ℕ)
    → is_valid_length trigger submitted saved ≡ true
    → IsSized trigger submitted saved
is_valid_length-IsSized trigger submitted saved e = elim (Bool-cases (regenerates trigger)) [
  | inl again ↦ as_many again (ground arith)
  | inr on ↦ with_more on (ground arith)
]

same_role-lem : (a b : Role) → same_role a b ≡ true → a ≡ b
same_role-lem user user e = refl
same_role-lem assistant assistant e = refl
same_role-lem system system e = refl
same_role-lem user assistant e = absurd (cc)
same_role-lem user system e = absurd (cc)
same_role-lem assistant user e = absurd (cc)
same_role-lem assistant system e = absurd (cc)
same_role-lem system user e = absurd (cc)
same_role-lem system assistant e = absurd (cc)

mark-matches_history : (a b : Message) → matches_history a b ≡ true → mark a ≡ mark b
unfolding matches_history
mark-matches_history a b e =
    let id : a.id ≡ b.id = ground arith in
    let roles : same_role a.role b.role ≡ true = ground arith in
    let role : a.role ≡ b.role = same_role-lem a.role b.role roles in cc

marks-all_match :
    (saved submitted : List Message)
    → all_match saved submitted ≡ true
    → map mark (saved ++ drop (length saved) submitted) ≡ map mark submitted
unfolding all_match
marks-all_match [] submitted e = refl
marks-all_match (a ∷ saved) [] e = absurd (cc)
marks-all_match (a ∷ saved) (b ∷ submitted) e =
    let this : matches_history a b ≡ true = ground arith in
    let others : all_match saved submitted ≡ true = ground arith in
    rw (mark-matches_history a b this, marks-all_match saved submitted others) refl

-- A request that continues a saved chat is given the saved messages and then the rest of the
-- submitted ones. Where the answer is made again, and the saved chat ends with a message of the
-- assistant, that message alone is left out. As many messages are submitted as are kept where the
-- answer is made again, and more otherwise; ids and roles are those submitted.
pub continued-IsContinued :
    (saved : List Message) (trigger : Trigger) (submitted messages : List Message)
    → continued saved trigger submitted ≡ some messages
    → IsContinued saved trigger submitted messages
unfolding continued
continued-IsContinued saved trigger submitted messages e =
    elim (Bool-cases (
      is_valid_length trigger (length submitted) (length (prefix_of trigger saved))
      && all_match (prefix_of trigger saved) submitted)) [
        | inr invalid ↦ let e' = rw (invalid, continued) at e in absurd (cc)
        | inl valid ↦
            let e' = rw (valid, continued) at e in
            let given : prefix_of trigger saved ++ drop (length (prefix_of trigger saved)) submitted
                ≡ messages =
              cc in
            let matched : all_match (prefix_of trigger saved) submitted ≡ true = ground arith in
            subst (IsContinued saved trigger submitted) given (record {
              kept = prefix_of trigger saved;
              of_saved = prefix_of-IsKept saved trigger;
              saved_first = refl;
              sized =
                  is_valid_length-IsSized trigger (length submitted)
                    (length (prefix_of trigger saved)) (ground arith);
              same_marks = marks-all_match (prefix_of trigger saved) submitted matched;
            })
      ]
