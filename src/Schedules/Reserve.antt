-- ===== src/Schedules/Reserve.antt =====
-- Room for one more scheduled run of a chat: agent/src/web/schedules/history.ts.
pub mod Laws
use codeberg.Base.{
  ℕ, ◌-◌, ◌==◌, leb, ltb, if◌then◌else◌, not, ◌&&◌, ◌||◌, Bool, true, false, Option, none, some,
  List, [], ◌∷◌, length, take, keep_if, map,
}
use codeberg.Schedules.Job.{ScheduledRun, is_active}

abbrev pub of_chat : ℕ → ScheduledRun → Bool
of_chat chat_id job = job.chat_id == chat_id

abbrev pub is_terminal : ScheduledRun → Bool
is_terminal job = not (is_active job.status)

-- The stable sort by `createdAt`.
unfoldable pub insert_by_age : ScheduledRun → List ScheduledRun → List ScheduledRun
insert_by_age job [] = job ∷ []
insert_by_age job (other ∷ rest) =
    if leb job.created_at other.created_at
    then job ∷ (other ∷ rest)
    else other ∷ insert_by_age job rest

unfoldable pub sort_by_age : List ScheduledRun → List ScheduledRun
sort_by_age [] = []
sort_by_age (job ∷ rest) = insert_by_age job (sort_by_age rest)

unfoldable pub has_id : ℕ → List ℕ → Bool
has_id id [] = false
has_id id (x ∷ rest) = x == id || has_id id rest

-- The ids of a Set: each once.
unfoldable pub id_set : List ScheduledRun → List ℕ
id_set [] = []
id_set (job ∷ rest) =
    let others = id_set rest in if has_id job.id others then others else job.id ∷ others

abbrev pub stays : List ℕ → ScheduledRun → Bool
stays remove job = not (has_id job.id remove)

-- `none` where the source throws.
unfoldable pub reserve_schedule : List ScheduledRun → ℕ → Option (List ScheduledRun)
reserve_schedule jobs chat_id =
    let owned = keep_if (of_chat chat_id) jobs in
    let terminal = sort_by_age (keep_if is_terminal owned) in
    let remove = id_set (take (length owned - 99) terminal) in
    if ltb (length owned) 100
    then some jobs
    else if leb 100 (length owned - length remove)
    then none
    else some (keep_if (stays remove) jobs)
