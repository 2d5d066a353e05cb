-- ===== src/Jobs/Operations.antt =====
-- The operations of `EvaluationJobs`, each a piece of code that runs without an await. The clock
-- readings, the fresh id, and what the evaluation service returns or raises are arguments.
use ai_trading_platform.Prelude.{
  ℕ, zero, suc, ◌+◌, Bool, true, false, ◌||◌, Option, none, some, List, [], ◌∷◌, ◌++◌, length, ltb,
  leb, if◌then◌else◌, Result, ok, err, ◌>>=◌,
}
use ai_trading_platform.Timeframe.{Timeframe, Datetime, timeframe_bucket_start}
use ai_trading_platform.Jobs.Registry.{
  pending, running, completed, failed, cancelled, is_terminal, JobError, strategy_evaluation_busy,
  evaluation_not_found, evaluation_not_completed, evaluation_result_too_large,
  strategy_evaluation_timeout, strategy_evaluation_failed, not_authorized, service_error, Body,
  Bodies, Job, Registry, terminal_jobs, ended_at, remove_job, find_job, update_job, active_count,
  bodies_size, retained_size, job_response,
}

-- `_expire`: the loop over a snapshot of the terminal jobs.
unfoldable pub expire_jobs : ℕ → ℕ → List Job → List Job → List Job
expire_jobs now retention [] jobs = jobs
expire_jobs now retention (t ∷ ts) jobs =
    expire_jobs now retention ts
      (if leb (ended_at t + retention) now then remove_job t.evaluation_id jobs else jobs)

abbrev pub expire : ℕ → Registry → Registry
expire now r = record r { jobs = expire_jobs now r.retention_seconds (terminal_jobs r.jobs) r.jobs }

-- The loop of `create`, on fuel: while the registry is full and has a terminal job, the oldest goes.
unfoldable pub make_room : ℕ → ℕ → List Job → List Job
make_room zero max_jobs jobs = jobs
make_room (suc fuel) max_jobs jobs =
    if leb max_jobs (length jobs)
    then elim (terminal_jobs jobs) [
      | [] ↦ jobs
      | t ∷ ts ↦ make_room fuel max_jobs (remove_job t.evaluation_id jobs)
    ]
    else jobs

-- The loop of `_run`, on fuel: while the new bodies do not fit, the oldest terminal job goes. False
-- says that there was no terminal job to index.
unfoldable pub make_space : ℕ → ℕ → ℕ → List Job → List Job × Bool
make_space zero size limit jobs = (jobs, leb (retained_size jobs + size) limit)
make_space (suc fuel) size limit jobs = elim (leb (retained_size jobs + size) limit) [
  | true ↦ (jobs, true)
  | false ↦ elim (terminal_jobs jobs) [
    | [] ↦ (jobs, false)
    | t ∷ ts ↦ make_space fuel size limit (remove_job t.evaluation_id jobs)
  ]
]

abbrev pub new_job : ℕ → Option Datetime → Timeframe → Datetime → Datetime → Job
new_job id requested timeframe now created = record {
  evaluation_id = id;
  requested_cutoff = requested;
  timeframe = timeframe;
  cutoff = elim requested [ some t ↦ t | none ↦ timeframe_bucket_start now timeframe ];
  created_at = created;
  status = pending;
  started_at = none;
  completed_at = none;
  has_data = false;
  failure = none;
  bodies = none;
  terminal_monotonic = none;
}

-- `create`: `binding` is what `_resolve_binding` returns or raises.
unfoldable pub create :
    Result JobError Timeframe
    → Option Datetime
    → (id now created mono : ℕ) → Registry
    → Result JobError Job × Registry
create (err e) requested id now created mono registry = (err e, registry)
create (ok timeframe) requested id now created mono registry =
    let r = expire mono registry in
    if r.closed || leb r.max_active (active_count r.jobs)
    then (err strategy_evaluation_busy, r)
    else (let jobs = make_room (length r.jobs) r.max_jobs r.jobs in
        if leb r.max_jobs (length jobs)
        then (err strategy_evaluation_busy, record r { jobs = jobs })
        else (let job = new_job id requested timeframe now created in
            (job_response job, record r { jobs = jobs ++ job ∷ [] })))

-- The first lines of `_run`.
unfoldable pub start_job : (id now : ℕ) → Registry → Registry
start_job id now r = record r {
  jobs = update_job id (λ j. record j { status = running; started_at = some now }) r.jobs;
}

-- The callback `prepared`.
unfoldable pub prepare_job : ℕ → Registry → Registry
prepare_job id r = record r { jobs = update_job id (λ j. record j { has_data = true }) r.jobs }

-- What `complete_response` returns or raises.
pub data Outcome : Type 0 where
  returned : Bodies → Outcome
  interrupted timed_out unexpected : Outcome
  app_error : ℕ → Outcome

-- The `except` clauses and the `finally` of `_run`.
abbrev pub fail_job : JobError → (now mono : ℕ) → Job → Job
fail_job e now mono j = record j {
  status = failed;
  failure = some e;
  completed_at = some now;
  terminal_monotonic = some mono;
}

abbrev pub cancel_job : (now mono : ℕ) → Job → Job
cancel_job now mono j = record j {
  status = cancelled;
  completed_at = some now;
  terminal_monotonic = some mono;
}

abbrev pub complete_job : Bodies → (now mono : ℕ) → Job → Job
complete_job bodies now mono j = record j {
  status = completed;
  bodies = some bodies;
  completed_at = some now;
  terminal_monotonic = some mono;
}

abbrev pub settle : ℕ → (Job → Job) → Registry → Registry
settle id f r = record r { jobs = update_job id f r.jobs }

-- The rest of `_run`, once the evaluation has returned or raised.
unfoldable pub end_job : ℕ → Outcome → (now mono : ℕ) → Registry → Registry
end_job id interrupted now mono r = settle id (cancel_job now mono) r
end_job id timed_out now mono r = settle id (fail_job strategy_evaluation_timeout now mono) r
end_job id unexpected now mono r = settle id (fail_job strategy_evaluation_failed now mono) r
end_job id (app_error code) now mono r = settle id (fail_job (service_error code) now mono) r
end_job id (returned bodies) now mono r =
    let size = bodies_size (some bodies) in
    if ltb r.max_retained_bytes size
    then settle id (fail_job evaluation_result_too_large now mono) r
    else (let (jobs, fits) = make_space (length r.jobs) size r.max_retained_bytes r.jobs in
        if fits
        then settle id (complete_job bodies now mono) (record r { jobs = jobs })
        else settle id (fail_job strategy_evaluation_failed now mono) (record r { jobs = jobs }))

-- `_get`: `authorized` is the answer of `_authorize_cutoff`.
unfoldable pub get_job : ℕ → Bool → ℕ → Registry → Result JobError Job
get_job id authorized mono r = elim (find_job id (expire mono r).jobs) [
  | none ↦ err evaluation_not_found
  | some j ↦ if authorized then ok j else err not_authorized
]

unfoldable pub status_of : ℕ → Bool → ℕ → Registry → Result JobError Job × Registry
status_of id authorized mono r = (get_job id authorized mono r >>= job_response, expire mono r)

pub data ResultKind : Type 0 where
  signal analysis : ResultKind

abbrev pub body_of : ResultKind → Bodies → Body
body_of signal (first, second) = first
body_of analysis (first, second) = second

abbrev pub read_result : ResultKind → Job → Result JobError Body
read_result kind j = elim j.status [
  | completed ↦ elim j.bodies [
    | some bodies ↦ ok (body_of kind bodies)
    | none ↦ err evaluation_not_completed
  ]
  | _ ↦ err evaluation_not_completed
]

unfoldable pub result_of : ℕ → ResultKind → Bool → ℕ → Registry → Result JobError Body × Registry
result_of id kind authorized mono r =
    (get_job id authorized mono r >>= read_result kind, expire mono r)

-- `cancel`, with the end of the cancelled task that it waits for: `_run` ends by `interrupted` if it
-- has started, and a task that has not started leaves its job to `cancel`.
unfoldable pub cancel : ℕ → Bool → (now mono : ℕ) → Registry → Result JobError Job × Registry
cancel id authorized now mono registry =
    let r = expire mono registry in
    elim (get_job id authorized mono registry) [
      | err e ↦ (err e, r)
      | ok j ↦
          if is_terminal j.status
          then (job_response j, r)
          else (job_response (cancel_job now mono j), settle id (cancel_job now mono) r)
    ]

-- `aclose`, with the end of the tasks that it waits for.
unfoldable pub close : Registry → Registry
close r = record r { closed = true; jobs = [] }
