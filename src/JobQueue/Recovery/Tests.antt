-- ===== src/JobQueue/Recovery/Tests.antt =====
-- Temporary files of two processes, one of them gone: the theorem of their removal, and a run.
use codeberg.Base.{ℕ, ◌==◌, ◌≡◌, if◌then◌else◌, refl, List, [], ◌∷◌}
use codeberg.JobQueue.Job.{JobStatus, pending}
use codeberg.JobQueue.Recovery.Writes.{
  Killed, reached, no_process, Leftover, temporary, foreign, is_process_alive,
  remove_abandoned_writes,
}

abbrev only_7 : ℕ → Killed
only_7 pid = if pid == 7 then reached else no_process

abbrev leftovers : JobStatus → List Leftover
leftovers status = temporary 1 7 "a" ∷ temporary 1 8 "b" ∷ foreign "notes" ∷ []

writes_test :
    remove_abandoned_writes only_7 leftovers pending ≡ temporary 1 7 "a" ∷ foreign "notes" ∷ []
unfolding remove_abandoned_writes is_process_alive
writes_test = refl
