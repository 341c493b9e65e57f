-- ===== src/Runs/Manager/Kept.antt =====
-- No run loses its directory when a run ends or the server restarts.
use codeberg.Base.{
  sym, subst, if◌then◌else◌, not, Bool, true, false, ℕ, ◌≡◌, inl, inr, List, [], ◌∷◌, refl,
  Bool-cases, Option-cases,
}
use codeberg.Runs.Run.{find_session, Run, Session, save_run, find_active}
use codeberg.Runs.Manager.{SearchRuns, load}
use codeberg.Runs.Manager.Events.{
  save_run_session, Ending, ended, journalled, save_end, finish, recover_session, recover,
  is_latest,
}
use codeberg.Runs.Manager.Stored.{IsStored, save_run-IsStored, load-IsStored}

session-stored : (run : Run) (s : SearchRuns) → (save_run_session run s).stored ≡ s.stored
unfolding save_run_session
session-stored run s = elim (Option-cases (find_session run.chat_id s.sessions)) [
  | inl missing ↦ rw (missing, save_run_session) refl
  | inr (session, found) ↦ elim (Bool-cases (is_latest run.id session.server_run_id)) [
    | inl latest ↦ rw (found, save_run_session, latest) refl
    | inr older ↦ rw (found, save_run_session, older) refl
  ]
]

if-IsStored :
    (chat_id id : ℕ) (b : Bool) (x y : SearchRuns)
    → IsStored chat_id id x.stored
    → IsStored chat_id id y.stored
    → IsStored chat_id id (if b then x else y).stored
if-IsStored chat_id id true x y p q = p
if-IsStored chat_id id false x y p q = q

save_end-IsStored :
    (chat_id id : ℕ) (ending : Ending) (run : Run) (s : SearchRuns)
    → IsStored chat_id id s.stored
    → IsStored chat_id id (save_end ending run s).stored
unfolding save_end
save_end-IsStored chat_id id ending run s h =
    let recorded = record s { stored = save_run (ended ending run) s.stored } in
    let kept = save_run-IsStored chat_id id (ended ending run) s.stored h in
    if-IsStored chat_id id (not ending.is_recorded) _ _
      (save_run-IsStored chat_id id (journalled ending run) s.stored h)
      (if-IsStored chat_id id ending.is_saved _ _
        (subst (IsStored chat_id id) (sym (session-stored (ended ending run) recorded)) kept) kept)

pub finish-IsStored :
    (chat_id id c : ℕ) (ending : Ending) (s : SearchRuns)
    → IsStored chat_id id s.stored
    → IsStored chat_id id (finish c ending s).stored
unfolding finish
finish-IsStored chat_id id c ending s h = elim (Option-cases (find_active c s.active)) [
  | inl missing ↦ rw (missing, finish) h
  | inr (run, found) ↦ rw (found, finish) (save_end-IsStored chat_id id ending run s h)
]

recover_session-IsStored :
    (chat_id id : ℕ) (session : Session) (s : SearchRuns)
    → IsStored chat_id id s.stored
    → IsStored chat_id id (recover_session session s).stored
unfolding recover_session
recover_session-IsStored chat_id id session s h = elim (Option-cases session.server_run_id) [
  | inl missing ↦ rw (missing, recover_session) h
  | inr (latest, is_run_id) ↦
      let loaded = load-IsStored chat_id id session.chat_id latest s h in
      elim (Option-cases (load session.chat_id latest s).1) [
        | inl missing ↦ rw (is_run_id, recover_session, missing) loaded
        | inr (f, found) ↦
            rw
              (
                is_run_id,
                recover_session,
                found,
                session-stored f.run (load session.chat_id latest s).0,
              )
              loaded
      ]
]

pub recover-IsStored :
    (chat_id id : ℕ) (sessions : List Session) (s : SearchRuns)
    → IsStored chat_id id s.stored
    → IsStored chat_id id (recover sessions s).stored
unfolding recover
recover-IsStored chat_id id [] s h = h
recover-IsStored chat_id id (session ∷ rest) s h =
    recover-IsStored chat_id id rest (recover_session session s)
      (recover_session-IsStored chat_id id session s h)
