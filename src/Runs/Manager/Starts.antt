-- ===== src/Runs/Manager/Starts.antt =====
-- What an admission does, by cases.
use codeberg.Base.{
  ℕ, ◌≡◌, ◌⊎◌, inl, inr, not, is_some, if◌then◌else◌, Bool, true, false, Option, none, some, List,
  refl, Bool-cases, Option-cases, sym, ap, ◌∙◌,
}
use codeberg.Runs.Run.{Message, find_session, RunInput, find_run, find_active}
use codeberg.Runs.History.{validate_history}
use codeberg.Runs.Manager.{
  Names, SearchRuns, Found, Admission, refused, Storage, find, launch, new_run, again, start_new,
  start, is_requested, is_valid_input, start_valid,
}
use codeberg.Runs.Manager.Stored.{find-none}

module _ {Request : Type 0} (names : Names Request) where
  -- The id of the request's run.
  abbrev pub key : RunInput Request → ℕ
  key input = names.hash input.chat_id input.request

  -- What `start_new` does: nothing, or the launch of a run in a chat without one.
  start_new-cases :
      (storage : Storage) (input : RunInput Request) (s : SearchRuns)
      → (start_new names storage input s ≡ (s, refused 409))
        ⊎ ((is_some (find_active input.chat_id s.active) ≡ false)
            × ((messages : List Message) × (start_new names storage input s
                  ≡ launch storage (new_run names input messages) s)))
  unfolding start_new
  start_new-cases storage input s =
      elim (Bool-cases (is_some (find_active input.chat_id s.active))) [
        | inl busy ↦ inl (rw busy refl)
        | inr free ↦
            elim (Option-cases (validate_history (find_session input.chat_id s.sessions) input)) [
              | inl invalid ↦ inl (rw (free, start_new, invalid) refl)
              | inr (messages, valid) ↦
                  elim (Bool-cases
                    (is_requested (names.hash input.chat_id input.request) s.requested)) [
                      | inl stopped ↦ inl (rw (free, start_new, valid, stopped) refl)
                      | inr not_stopped ↦
                          inr (free, (messages, rw (free, start_new, valid, not_stopped) refl))
                    ]
            ]
      ]

  -- What `start` does: it refuses, answers with the run of the request, or starts one for it.
  pub data Starts (storage : Storage) (input : RunInput Request) (s : SearchRuns)
      : SearchRuns × Admission → Type 0 where
    refuses : (code : ℕ) → Starts storage input s (s, refused code)
    repeats :
        (loaded : SearchRuns) (f : Found)
        → find input.chat_id (key input) s ≡ (loaded, some f)
        → Starts storage input s (loaded, again names input f)
    launches :
        (messages : List Message)
        → find_run input.chat_id (key input) s.stored ≡ none
        → is_some (find_active input.chat_id s.active) ≡ false
        → Starts storage input s (launch storage (new_run names input messages) s)

  new-Starts :
      (storage : Storage) (input : RunInput Request) (s : SearchRuns)
      → find_run input.chat_id (key input) s.stored ≡ none
      → Starts storage input s (start_new names storage input s)
  new-Starts storage input s missing = elim (start_new-cases storage input s) [
    | inl refusal ↦ rw refusal (refuses 409)
    | inr (free, (messages, e)) ↦ rw e (launches messages missing free)
  ]

  if-Starts :
      (b : Bool) {storage : Storage} {input : RunInput Request} {s : SearchRuns}
      {x y : SearchRuns × Admission}
      → Starts storage input s x
      → Starts storage input s y
      → Starts storage input s (if b then x else y)
  if-Starts true x y = x
  if-Starts false x y = y

  found-Starts :
      (storage : Storage) (input : RunInput Request) (s : SearchRuns)
      (r : SearchRuns × Option Found)
      → find input.chat_id (key input) s ≡ r
      → Starts storage input s (start_valid names storage input r)
  unfolding start_valid
  found-Starts storage input s (loaded, some f) e = repeats loaded f e
  found-Starts storage input s (loaded, none) e =
      let (unknown, same) =
        find-none input.chat_id (key input) s (ap (λ (r : SearchRuns × Option Found). r.1) e) in
      let unchanged : loaded ≡ s = sym (ap (λ (r : SearchRuns × Option Found). r.0) e) ∙ same in
      rw unchanged (new-Starts storage input s unknown)

  pub start-Starts :
      (storage : Storage) (input : RunInput Request) (s : SearchRuns)
      → Starts storage input s (start names storage input s)
  unfolding start
  start-Starts storage input s = if-Starts s.closed (refuses 503) (
      if-Starts (not (is_valid_input names input)) (refuses 400)
        (found-Starts storage input s _ refl))
