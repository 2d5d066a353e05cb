-- ===== src/Jobs/Registry.antt =====
-- The records of backend/app/services/evaluation_jobs.py and the statuses of
-- backend/app/schemas/evaluation_job.py. Ids are numbers (UUIDs in the source) and a body is a list
-- of bytes. Of a request only what the registry reads is kept; the strategy identity and the data
-- identity are opaque there, and of the data identity it is kept whether it has arrived.
use ai_trading_platform.Prelude.{
  ℕ, ◌+◌, Bool, true, false, ◌&&◌, not, Option, none, some, List, [], ◌∷◌, length, ◌==◌,
  if◌then◌else◌, is_some, Result, ok, ◌>>◌, raise_if,
}
use ai_trading_platform.Timeframe.{Timeframe, Datetime}
use ai_trading_platform.Normalize.Defs.{sorted}

pub data EvaluationStatus : Type 0 where
  pending running completed failed cancelled : EvaluationStatus

-- `TERMINAL_EVALUATION_STATUSES`
abbrev pub is_terminal : EvaluationStatus → Bool
is_terminal pending = false
is_terminal running = false
is_terminal s = true

-- the codes of `EvaluationFailure`, and of the errors that the registry raises
pub data JobError : Type 0 where
  strategy_evaluation_busy evaluation_not_found evaluation_not_completed : JobError
  evaluation_result_too_large strategy_evaluation_timeout strategy_evaluation_failed : JobError
  not_authorized invalid_response : JobError
  service_error : ℕ → JobError

abbrev pub Body : Type 0
Body = List ℕ

abbrev pub Bodies : Type 0
Bodies = Body × Body

pub record Job : Type 0 where
  pub evaluation_id : ℕ
  pub requested_cutoff : Option Datetime
  pub timeframe : Timeframe
  pub cutoff : Datetime
  pub created_at : Datetime
  pub status : EvaluationStatus
  pub started_at : Option Datetime
  pub completed_at : Option Datetime
  pub has_data : Bool
  pub failure : Option JobError
  pub bodies : Option Bodies
  pub terminal_monotonic : Option ℕ

pub record Registry : Type 0 where
  pub max_active : ℕ
  pub max_jobs : ℕ
  pub max_retained_bytes : ℕ
  pub retention_seconds : ℕ
  pub jobs : List Job
  pub closed : Bool

abbrev pub job_is_terminal : Job → Bool
job_is_terminal j = is_terminal j.status

abbrev pub terminal_only : List Job → List Job
terminal_only [] = []
terminal_only (j ∷ js) = if job_is_terminal j then j ∷ terminal_only js else terminal_only js

-- `job.terminal_monotonic or 0`
abbrev pub ended_at : Job → ℕ
ended_at j = elim j.terminal_monotonic [ none ↦ 0 | some t ↦ t ]

-- `_terminal_jobs`: the oldest first
unfoldable pub terminal_jobs : List Job → List Job
terminal_jobs jobs = sorted ended_at (terminal_only jobs)

-- `self._jobs.pop(evaluation_id)`
unfoldable pub remove_job : ℕ → List Job → List Job
remove_job id [] = []
remove_job id (j ∷ js) = if j.evaluation_id == id then js else j ∷ remove_job id js

unfoldable pub find_job : ℕ → List Job → Option Job
find_job id [] = none
find_job id (j ∷ js) = if j.evaluation_id == id then some j else find_job id js

-- A write to the job object that the dict holds under an id.
unfoldable pub update_job : ℕ → (Job → Job) → List Job → List Job
update_job id f [] = []
update_job id f (j ∷ js) = if j.evaluation_id == id then f j ∷ js else j ∷ update_job id f js

-- `sum(job.status not in TERMINAL_EVALUATION_STATUSES ...)`
unfoldable pub active_count : List Job → ℕ
active_count [] = 0
active_count (j ∷ js) = (if job_is_terminal j then 0 else 1) + active_count js

abbrev pub bodies_size : Option Bodies → ℕ
bodies_size none = 0
bodies_size (some (signal, analysis)) = length signal + length analysis

-- `retained_size`
unfoldable pub retained_size : List Job → ℕ
retained_size [] = 0
retained_size (j ∷ js) = bodies_size j.bodies + retained_size js

abbrev pub same : Bool → Bool → Bool
same true b = b
same false b = not b

abbrev pub is_completed : EvaluationStatus → Bool
is_completed completed = true
is_completed s = false

abbrev pub is_failed : EvaluationStatus → Bool
is_failed failed = true
is_failed s = false

abbrev pub is_running : EvaluationStatus → Bool
is_running running = true
is_running s = false

-- `_status`, through `EvaluationJobResponse.validate_lifecycle`; `result_available` is computed
-- from the status, so the test of it is left in as the source has it.
unfoldable pub job_response : Job → Result JobError Job
job_response j = do
  let result_available = is_completed j.status
  raise_if (not (same (is_terminal j.status) (is_some j.completed_at))) invalid_response
  raise_if (not (same result_available (is_completed j.status))) invalid_response
  raise_if (not (same (is_some j.failure) (is_failed j.status))) invalid_response
  raise_if (is_completed j.status && not j.has_data) invalid_response
  raise_if (is_running j.status && not (is_some j.started_at)) invalid_response
  ok j
