-- ===== src/Jobs/Promises.antt =====
-- What a client of the registry can rely on.
use ai_trading_platform.Prelude.{
  ℕ, ◌≤◌, ◌≡◌, ◌∙◌, false, ◌&&◌, not, Option, none, some, List, [], ◌∷◌, length, ltb, leb, min,
  if◌then◌else◌, arith, refl, Result, ok, err, inl, inr, Bool-cases,
}
use mathlib.Core.Path.{subst}
use ai_trading_platform.Timeframe.{Timeframe, Datetime}
use ai_trading_platform.Jobs.Registry.{
  running, JobError, Bodies, Job, Registry, strategy_evaluation_busy, evaluation_result_too_large,
  find_job, update_job, active_count, bodies_size, retained_size,
}
use ai_trading_platform.Jobs.Operations.{
  expire, make_room, create, start_job, prepare_job, returned, end_job, cancel, close, fail_job,
  complete_job, new_job,
}
use ai_trading_platform.Jobs.Eviction.{
  make_room-Evicted, make_room-ends, make_space-Evicted, make_space-fits, expire_jobs-Evicted,
}
use ai_trading_platform.Jobs.Capacity.{IsWithin, All-IsUnread, expire-IsWithin}
use ai_trading_platform.Jobs.Preservation.{
  create-IsWithin, end_job-IsWithin, start_job-IsWithin, prepare_job-IsWithin, cancel-IsWithin,
  close-IsWithin,
}
use ai_trading_platform.Jobs.Steps.{
  Event, creates, starts, prepares, ends, reads, cancels, closes, apply, Enabled, create_fresh,
  start_pending, prepare_running, end_running, read_any, cancel_any, close_any, Reaches, stay,
  event, new_job-IsJob,
}

-- `__init__`
abbrev pub new_registry : (max_active max_jobs max_retained_bytes retention_seconds : ℕ) → Registry
new_registry max_active max_jobs max_retained_bytes retention_seconds = record {
  max_active = max_active;
  max_jobs = max_jobs;
  max_retained_bytes = max_retained_bytes;
  retention_seconds = retention_seconds;
  jobs = [];
  closed = false;
}

-- `__init__` with its test: none stands for the `ValueError`.
unfoldable pub init_registry :
    (max_active max_jobs max_retained_bytes timeout_seconds retention_seconds : ℕ) → Option Registry
init_registry max_active max_jobs max_retained_bytes timeout_seconds retention_seconds =
    if leb
      (min max_active
        (min max_jobs (min max_retained_bytes (min timeout_seconds retention_seconds))))
      0
    then none
    else some (new_registry max_active max_jobs max_retained_bytes retention_seconds)

pub new_registry-IsWithin : (a j b t : ℕ) → IsWithin (new_registry a j b t)
unfolding active_count retained_size
new_registry-IsWithin a j b t = record {
  distinct = tt;
  valid = tt;
  active = omega arith;
  held = omega arith;
  retained = omega arith;
}

apply-IsWithin : (e : Event) (r : Registry) → Enabled e r → IsWithin r → IsWithin (apply e r)
unfolding apply
apply-IsWithin (creates b c id now created mono) r (create_fresh _ _ _ _ f) w =
    create-IsWithin b c id now created mono r w f
apply-IsWithin (starts id now) r (start_pending _ _ j f s) w = start_job-IsWithin id now j r f s w
apply-IsWithin (prepares id) r (prepare_running _ j f s) w = prepare_job-IsWithin id j r f s w
apply-IsWithin (ends id o now mono) r (end_running _ _ _ _ j f s p) w =
    end_job-IsWithin id o now mono j r f s p w
apply-IsWithin (reads mono) r (read_any _) w = expire-IsWithin mono r w
apply-IsWithin (cancels id b now mono) r (cancel_any _ _ _ _) w = cancel-IsWithin id b now mono r w
apply-IsWithin closes r close_any w = close-IsWithin r w

pub Reaches-IsWithin : (r s : Registry) → Reaches r s → IsWithin r → IsWithin s
Reaches-IsWithin r s stay w = w
Reaches-IsWithin r s (event e n rest) w =
    Reaches-IsWithin (apply e r) s rest (apply-IsWithin e r n w)

-- The limits of a registry.
abbrev pub SameLimits : Registry → Registry → Type 0
SameLimits r s =
    (s.max_active ≡ r.max_active)
    × (s.max_jobs ≡ r.max_jobs)
    × (s.max_retained_bytes ≡ r.max_retained_bytes)

create-SameLimits :
    (b : Result JobError Timeframe) (c : Option Datetime) (id now created mono : ℕ) (r : Registry)
    → SameLimits r (create b c id now created mono r).1
unfolding create
create-SameLimits (err e) c id now created mono r = (refl, refl, refl)
create-SameLimits (ok timeframe) c id now created mono r = ground arith

apply-SameLimits : (e : Event) (r : Registry) → SameLimits r (apply e r)
unfolding apply start_job prepare_job end_job cancel close
apply-SameLimits (creates b c id now created mono) r = create-SameLimits b c id now created mono r
apply-SameLimits (starts id now) r = (refl, refl, refl)
apply-SameLimits (prepares id) r = (refl, refl, refl)
apply-SameLimits (ends id (returned b) now mono) r = ground arith
apply-SameLimits (ends id o now mono) r = (refl, refl, refl)
apply-SameLimits (reads mono) r = (refl, refl, refl)
apply-SameLimits (cancels id b now mono) r = ground arith
apply-SameLimits closes r = (refl, refl, refl)

Reaches-SameLimits : (r s : Registry) → Reaches r s → SameLimits r s
Reaches-SameLimits r s stay = (refl, refl, refl)
Reaches-SameLimits r s (event e n rest) =
    let later = Reaches-SameLimits (apply e r) s rest in
    let now = apply-SameLimits e r in (later.0 ∙ now.0, later.1 ∙ now.1, later.2 ∙ now.2)

init_registry-some :
    (a j b w t : ℕ) (r : Registry) → init_registry a j b w t ≡ some r → new_registry a j b t ≡ r
unfolding init_registry
init_registry-some a j b w t r h = ground arith

-- In every registry that a constructed one reaches, the jobs that have not ended are at most
-- `max_active`, the jobs held at most `max_jobs`, and the bodies retained at most
-- `max_retained_bytes` bytes.
pub reachable_within_limits :
    (a j b w t : ℕ) (r s : Registry)
    → init_registry a j b w t ≡ some r
    → Reaches r s
    → (active_count s.jobs ≤ a) × (length s.jobs ≤ j) × (retained_size s.jobs ≤ b)
reachable_within_limits a j b w t r s i h =
    let new = init_registry-some a j b w t r i in
    let start = subst IsWithin new (new_registry-IsWithin a j b t) in
    let within = Reaches-IsWithin r s h start in
    let limits = Reaches-SameLimits r s h in
    let first = subst (SameLimits (new_registry a j b t)) new (refl, refl, refl) in
    (
      omega (arith, limits.0, first.0, within.active),
      omega (arith, limits.1, first.1, within.held),
      omega (arith, limits.2, first.2, within.retained),
    )

active_count-le : (js : List Job) → active_count js ≤ length js
unfolding active_count
active_count-le [] = omega arith
active_count-le (j ∷ js) = ground (arith, active_count-le js)

-- In a registry within its limits, a creation with a valid binding returns a pending job exactly when
-- the registry is open and its active jobs are fewer than `max_active` and than `max_jobs`; else it
-- raises the busy error.
pub create_admits :
    (timeframe : Timeframe) (c : Option Datetime) (id now created mono : ℕ) (r : Registry)
    → IsWithin r
    → (create (ok timeframe) c id now created mono r).0 ≡ (
        if not r.closed
          && ltb (active_count r.jobs) r.max_active
          && ltb (active_count r.jobs) r.max_jobs
        then ok (new_job id c timeframe now created)
        else err strategy_evaluation_busy)
unfolding create
create_admits timeframe c id now created mono r w =
    let x = expire mono r in
    let before = expire_jobs-Evicted mono r.retention_seconds r.jobs w.distinct in
    let d = before.distinct w.distinct in
    let evicted = make_room-Evicted (length x.jobs) r.max_jobs x.jobs d in
    let few = active_count-le (make_room (length x.jobs) r.max_jobs x.jobs) in
    let ends = make_room-ends (length x.jobs) r.max_jobs x.jobs d (omega arith) in
    let reported = (new_job-IsJob id c timeframe now created).0 in
    ground (arith, before.active, evicted.active, few, ends, reported)

update_job-found :
    (id : ℕ) (f : Job → Job) (j : Job) (js : List Job)
    → ((x : Job) → (f x).evaluation_id ≡ x.evaluation_id)
    → find_job id js ≡ some j
    → find_job id (update_job id f js) ≡ some (f j)
unfolding find_job update_job
update_job-found id f j [] keeps h = cc
update_job-found id f j (k ∷ js) keeps h =
    ground (arith, h, keeps k, update_job-found id f j js keeps)

-- In a registry within its limits, when the evaluation of a running job returns, the job is held
-- afterwards: completed with the bodies if their size is at most `max_retained_bytes`, and failed as
-- too large otherwise.
pub end_job_returned :
    (id now mono : ℕ) (bodies : Bodies) (j : Job) (r : Registry)
    → IsWithin r
    → find_job id r.jobs ≡ some j
    → j.status ≡ running
    → find_job id (end_job id (returned bodies) now mono r).jobs
      ≡ some (
          if leb (bodies_size (some bodies)) r.max_retained_bytes
          then complete_job bodies now mono j
          else fail_job evaluation_result_too_large now mono j)
unfolding end_job
end_job_returned id now mono bodies j r w found run =
    elim (Bool-cases (ltb r.max_retained_bytes (bodies_size (some bodies)))) [
      | inl large ↦
          let at =
            update_job-found id (fail_job evaluation_result_too_large now mono) j r.jobs (λ x. refl)
              found in
          ground (arith, large, at)
      | inr small ↦
          let size = bodies_size (some bodies) in
          let e = make_space-Evicted (length r.jobs) size r.max_retained_bytes r.jobs w.distinct in
          let fits =
            make_space-fits (length r.jobs) size r.max_retained_bytes r.jobs w.distinct
              (All-IsUnread r.jobs w.valid) (omega arith) (ground (arith, small)) in
          let kept = e.kept id j w.distinct found (ground (arith, run)) in
          let at = update_job-found id (complete_job bodies now mono) j _ (λ x. refl) kept in
          ground (arith, small, fits.0, at)
    ]
