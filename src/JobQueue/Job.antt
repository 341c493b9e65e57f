-- ===== src/JobQueue/Job.antt =====
-- The records of a job (agent/src/core/learning/types.ts) and the retry policy
-- (agent/src/core/learning/queue/policy.ts).
--
-- A job id is `job-` and 24 hexadecimal digits, and its file is named after it: the model takes
-- the number that the digits stand for, in whose order such names sort. A timestamp is the number
-- of milliseconds that `toISOString` writes and `Date.parse` reads back. An optional Boolean that
-- is absent is `false`, which the code cannot tell apart from it.
use Prim.Native.String.{String}
use codeberg.Base.{ℕ, ◌*◌, ◌==◌, Bool, true, false, Option, List, [], ◌∷◌}

pub data JobStatus : Type 0 where
  pending processing completed failed : JobStatus

pub data FailureCategory : Type 0 where
  network_error model_error rate_limited repository_unavailable invalid_response process_crash
        permanent_error :
      FailureCategory

pub data JobType : Type 0 where
  extract_knowledge extract_dataset consolidate_knowledge evaluate_output : JobType

pub record KnowledgeJob : Type 0 where
  pub job_id : ℕ
  pub type : JobType
  pub interaction_id : String
  pub source_revision : Option String
  pub extraction_version : Option ℕ
  pub source_code_revision : Option String
  pub source_refresh : Bool
  pub created_at : ℕ
  pub updated_at : ℕ
  pub attempt_count : ℕ
  pub status : JobStatus
  pub last_error : Option String
  pub last_error_category : Option FailureCategory
  pub last_attempt_at : Option ℕ
  pub next_attempt_at : Option ℕ
  pub lease_expires_at : Option ℕ
  pub rerun_requested : Bool

-- The position of a status in `statuses` of `reconcileStates`.
abbrev pub status_index : JobStatus → ℕ
status_index processing = 0
status_index pending = 1
status_index failed = 2
status_index completed = 3

abbrev pub same_status : JobStatus → JobStatus → Bool
same_status s t = status_index s == status_index t

abbrev type_index : JobType → ℕ
type_index extract_knowledge = 0
type_index extract_dataset = 1
type_index consolidate_knowledge = 2
type_index evaluate_output = 3

abbrev pub same_type : JobType → JobType → Bool
same_type a b = type_index a == type_index b

abbrev pub default_lease_ms : ℕ
default_lease_ms = 10 * 60000

abbrev pub backoff_ms : List ℕ
backoff_ms = 60000 ∷ 5 * 60000 ∷ 15 * 60000 ∷ 60 * 60000 ∷ 4 * 60 * 60000 ∷ []

abbrev pub max_attempts : ℕ
max_attempts = 5

abbrev pub is_transient_failure : FailureCategory → Bool
is_transient_failure permanent_error = false
is_transient_failure _ = true
