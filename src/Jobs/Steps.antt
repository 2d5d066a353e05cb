-- ===== src/Jobs/Steps.antt =====
-- The runs of the registry: each event is a piece of code that the event loop runs without a break,
-- with the values that the clock, the service and the caller give it.
use ai_trading_platform.Prelude.{
  ℕ, ◌≡◌, Bool, true, false, Option, none, some, arith, refl, Result, ok,
}
use ai_trading_platform.Timeframe.{Timeframe, Datetime}
use ai_trading_platform.Jobs.Registry.{
  pending, running, JobError, Bodies, Job, Registry, job_is_terminal, find_job, job_response,
}
use ai_trading_platform.Jobs.Operations.{
  expire, create, start_job, prepare_job, Outcome, returned, end_job, cancel, close, fail_job,
  cancel_job, complete_job, new_job,
}
use ai_trading_platform.Jobs.Removal.{IsUnread}

pub data Event : Type 0 where
  creates : Result JobError Timeframe → Option Datetime → (id now created mono : ℕ) → Event
  starts : (id now : ℕ) → Event
  prepares : ℕ → Event
  ends : ℕ → Outcome → (now mono : ℕ) → Event
  reads : ℕ → Event
  cancels : ℕ → Bool → (now mono : ℕ) → Event
  closes : Event

unfoldable pub apply : Event → Registry → Registry
apply (creates binding requested id now created mono) r =
    (create binding requested id now created mono r).1
apply (starts id now) r = start_job id now r
apply (prepares id) r = prepare_job id r
apply (ends id outcome now mono) r = end_job id outcome now mono r
apply (reads mono) r = expire mono r
apply (cancels id authorized now mono) r = (cancel id authorized now mono r).1
apply closes r = close r

-- The evaluation service calls `prepared` before it returns.
abbrev pub is_prepared : Outcome → Job → Bool
is_prepared (returned bodies) j = j.has_data
is_prepared o j = true

pub data Enabled : Event → Registry → Type 1 where
  create_fresh :
      {r : Registry} {b : Result JobError Timeframe} {c : Option Datetime} (id now created mono : ℕ)
      → find_job id r.jobs ≡ none
      → Enabled (creates b c id now created mono) r
  start_pending :
      {r : Registry} (id now : ℕ) (j : Job)
      → find_job id r.jobs ≡ some j
      → j.status ≡ pending
      → Enabled (starts id now) r
  prepare_running :
      {r : Registry} (id : ℕ) (j : Job)
      → find_job id r.jobs ≡ some j
      → j.status ≡ running
      → Enabled (prepares id) r
  end_running :
      {r : Registry} (id : ℕ) (o : Outcome) (now mono : ℕ) (j : Job)
      → find_job id r.jobs ≡ some j
      → j.status ≡ running
      → is_prepared o j ≡ true
      → Enabled (ends id o now mono) r
  read_any : {r : Registry} (mono : ℕ) → Enabled (reads mono) r
  cancel_any : {r : Registry} (id : ℕ) (b : Bool) (now mono : ℕ) → Enabled (cancels id b now mono) r
  close_any : {r : Registry} → Enabled closes r

pub data Reaches : Registry → Registry → Type 1 where
  stay : {r : Registry} → Reaches r r
  event : {r s : Registry} (e : Event) → Enabled e r → Reaches (apply e r) s → Reaches r s

-- A job that the registry can report, and that keeps a body only once it is terminal.
abbrev pub IsJob : Job → Type 0
IsJob j = (job_response j ≡ ok j) × IsUnread j

pub new_job-IsJob :
    (id : ℕ) (c : Option Datetime) (timeframe : Timeframe) (now created : Datetime)
    → IsJob (new_job id c timeframe now created)
unfolding job_response
new_job-IsJob id c timeframe now created = (refl, λ n. refl)

pub start-IsJob :
    (j : Job) (now : ℕ)
    → j.status ≡ pending
    → IsJob j
    → IsJob (record j { status = running; started_at = some now })
unfolding job_response
start-IsJob j now s v = ground (arith, v.0, v.1)

pub prepare-IsJob : (j : Job) → j.status ≡ running → IsJob j → IsJob (record j { has_data = true })
unfolding job_response
prepare-IsJob j s v = ground (arith, v.0, v.1)

pub fail_job-IsJob :
    (j : Job) (e : JobError) (now mono : ℕ)
    → j.status ≡ running
    → IsJob j
    → IsJob (fail_job e now mono j)
unfolding job_response
fail_job-IsJob j e now mono s v = ground (arith, v.0, v.1)

pub cancel_job-IsJob :
    (j : Job) (now mono : ℕ) → job_is_terminal j ≡ false → IsJob j → IsJob (cancel_job now mono j)
unfolding job_response
cancel_job-IsJob j now mono s v = ground (arith, v.0, v.1)

pub complete_job-IsJob :
    (j : Job) (b : Bodies) (now mono : ℕ)
    → j.status ≡ running
    → j.has_data ≡ true
    → IsJob j
    → IsJob (complete_job b now mono j)
unfolding job_response
complete_job-IsJob j b now mono s d v = ground (arith, v.0, v.1)
