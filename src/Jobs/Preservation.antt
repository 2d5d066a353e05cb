-- ===== src/Jobs/Preservation.antt =====
-- Each operation of the registry keeps its limits, and what creation and completion promise.
use ai_trading_platform.Prelude.{
  ℕ, ◌≤◌, ◌<◌, ◌≡◌, Bool, true, false, ◌||◌, Option, none, some, [], ◌∷◌, ◌++◌, length, ltb, leb,
  arith, refl, Result, ok, err, inl, inr, Bool-cases, Option-cases,
}
use ai_trading_platform.Timeframe.{Timeframe, Datetime}
use ai_trading_platform.Jobs.Registry.{
  pending, running, is_terminal, JobError, Bodies, Job, Registry, strategy_evaluation_timeout,
  strategy_evaluation_failed, service_error, evaluation_result_too_large, find_job, active_count,
  bodies_size, retained_size,
}
use ai_trading_platform.Jobs.Operations.{
  expire, make_room, make_space, create, start_job, prepare_job, Outcome, returned, interrupted,
  timed_out, unexpected, app_error, end_job, cancel, close, fail_job, cancel_job, complete_job,
  new_job, settle, get_job,
}
use ai_trading_platform.Jobs.Eviction.{
  make_room-Evicted, make_space-Evicted, make_space-fits, expire_jobs-Evicted,
}
use ai_trading_platform.Jobs.Updates.{append-measures, All-append, IsDistinct-append}
use ai_trading_platform.Jobs.Capacity.{
  IsWithin, All-IsUnread, Evicted-IsWithin, expire-IsWithin, settle-IsWithin,
}
use ai_trading_platform.Jobs.Steps.{
  is_prepared, IsJob, new_job-IsJob, start-IsJob, prepare-IsJob, fail_job-IsJob, cancel_job-IsJob,
  complete_job-IsJob,
}

make_room-IsWithin :
    (r : Registry)
    → IsWithin r
    → IsWithin (record r { jobs = make_room (length r.jobs) r.max_jobs r.jobs })
make_room-IsWithin r w =
    Evicted-IsWithin r _ (make_room-Evicted (length r.jobs) r.max_jobs r.jobs w.distinct) w

append-IsWithin :
    (r : Registry) (j : Job)
    → IsWithin r
    → find_job j.evaluation_id r.jobs ≡ none
    → IsJob j
    → bodies_size j.bodies ≡ 0
    → active_count r.jobs < r.max_active
    → length r.jobs < r.max_jobs
    → IsWithin (record r { jobs = r.jobs ++ j ∷ [] })
append-IsWithin r j w fresh v b a l =
    let m = append-measures j r.jobs in
    record {
      distinct = IsDistinct-append j r.jobs fresh w.distinct;
      valid = All-append IsJob j r.jobs w.valid v;
      active = ground (arith, m.1, a);
      held = ground (arith, m.0, l);
      retained = ground (arith, m.2, b, w.retained);
    }

expired-fresh :
    (id mono : ℕ) (r : Registry)
    → IsWithin r
    → find_job id r.jobs ≡ none
    → find_job id (expire mono r).jobs ≡ none
expired-fresh id mono r w e =
    (expire_jobs-Evicted mono r.retention_seconds r.jobs w.distinct).fresh id w.distinct e

admitted-IsWithin :
    (timeframe : Timeframe) (c : Option Datetime) (id now created : ℕ) (r : Registry)
    → IsWithin r
    → find_job id r.jobs ≡ none
    → leb r.max_active (active_count r.jobs) ≡ false
    → leb r.max_jobs (length (make_room (length r.jobs) r.max_jobs r.jobs)) ≡ false
    → IsWithin (record r {
      jobs = make_room (length r.jobs) r.max_jobs r.jobs ++ new_job id c timeframe now created ∷ [];
    })
admitted-IsWithin timeframe c id now created r w e a l =
    let evicted = make_room-Evicted (length r.jobs) r.max_jobs r.jobs w.distinct in
    append-IsWithin (record r { jobs = make_room (length r.jobs) r.max_jobs r.jobs })
      (new_job id c timeframe now created) (make_room-IsWithin r w) (evicted.fresh id w.distinct e)
      (new_job-IsJob id c timeframe now created) refl (ground (arith, a, evicted.active))
      (ground (arith, l))

pub create-IsWithin :
    (b : Result JobError Timeframe) (c : Option Datetime) (id now created mono : ℕ) (r : Registry)
    → IsWithin r
    → find_job id r.jobs ≡ none
    → IsWithin (create b c id now created mono r).1
unfolding create
create-IsWithin (err e) c id now created mono r w f = w
create-IsWithin (ok timeframe) c id now created mono r w f =
    let x = expire mono r in
    let wx = expire-IsWithin mono r w in
    elim (Bool-cases (x.closed || leb x.max_active (active_count x.jobs))) [
      | inl busy ↦ rw busy wx
      | inr spare ↦
          elim (Bool-cases
            (leb x.max_jobs (length (make_room (length x.jobs) x.max_jobs x.jobs)))) [
              | inl full ↦ rw (spare, full) (make_room-IsWithin x wx)
              | inr room ↦
                  rw (spare, room)
                    (admitted-IsWithin timeframe c id now created x wx (expired-fresh id mono r w f)
                      (ground (arith, spare)) room)
            ]
    ]

fail-IsWithin :
    (id : ℕ) (e : JobError) (now mono : ℕ) (j : Job) (r : Registry)
    → find_job id r.jobs ≡ some j
    → j.status ≡ running
    → IsWithin r
    → IsWithin (settle id (fail_job e now mono) r)
fail-IsWithin id e now mono j r found run w =
    settle-IsWithin id (fail_job e now mono) j r (λ x. refl) found (fail_job-IsJob j e now mono run)
      (ground arith) (ground (arith, w.retained)) w

-- The eviction before a completion: the registry keeps its limits, the bodies fit, the job stays.
complete-IsWithin :
    (id : ℕ) (b : Bodies) (now mono : ℕ) (j : Job) (r : Registry)
    → find_job id r.jobs ≡ some j
    → j.status ≡ running
    → j.has_data ≡ true
    → bodies_size (some b) ≤ r.max_retained_bytes
    → IsWithin r
    → IsWithin (
        settle id (complete_job b now mono) (record r {
          jobs = (make_space (length r.jobs) (bodies_size (some b)) r.max_retained_bytes r.jobs).0;
        }))
complete-IsWithin id b now mono j r found run has small w =
    let size = bodies_size (some b) in
    let e = make_space-Evicted (length r.jobs) size r.max_retained_bytes r.jobs w.distinct in
    let fits =
      make_space-fits (length r.jobs) size r.max_retained_bytes r.jobs w.distinct
        (All-IsUnread r.jobs w.valid) (omega arith) small in
    settle-IsWithin id (complete_job b now mono) j _ (λ x. refl)
      (e.kept id j w.distinct found (ground (arith, run))) (complete_job-IsJob j b now mono run has)
      (ground (arith, run)) (omega (arith, fits.1)) (Evicted-IsWithin r _ e w)

pub end_job-IsWithin :
    (id : ℕ) (o : Outcome) (now mono : ℕ) (j : Job) (r : Registry)
    → find_job id r.jobs ≡ some j
    → j.status ≡ running
    → is_prepared o j ≡ true
    → IsWithin r
    → IsWithin (end_job id o now mono r)
unfolding end_job
end_job-IsWithin id interrupted now mono j r found run p w =
    settle-IsWithin id (cancel_job now mono) j r (λ x. refl) found
      (cancel_job-IsJob j now mono (ground (arith, run))) (ground arith)
      (ground (arith, w.retained)) w
end_job-IsWithin id timed_out now mono j r found run p w =
    fail-IsWithin id strategy_evaluation_timeout now mono j r found run w
end_job-IsWithin id unexpected now mono j r found run p w =
    fail-IsWithin id strategy_evaluation_failed now mono j r found run w
end_job-IsWithin id (app_error code) now mono j r found run p w =
    fail-IsWithin id (service_error code) now mono j r found run w
end_job-IsWithin id (returned bodies) now mono j r found run p w =
    elim (Bool-cases (ltb r.max_retained_bytes (bodies_size (some bodies)))) [
      | inl large ↦ rw large (fail-IsWithin id evaluation_result_too_large now mono j r found run w)
      | inr small ↦
          let fits =
            make_space-fits (length r.jobs) (bodies_size (some bodies)) r.max_retained_bytes r.jobs
              w.distinct (All-IsUnread r.jobs w.valid) (omega arith) (ground (arith, small)) in
          rw (small, fits.0)
            (complete-IsWithin id bodies now mono j r found run p (ground (arith, small)) w)
    ]

pub start_job-IsWithin :
    (id now : ℕ) (j : Job) (r : Registry)
    → find_job id r.jobs ≡ some j
    → j.status ≡ pending
    → IsWithin r
    → IsWithin (start_job id now r)
unfolding start_job
start_job-IsWithin id now j r found s w =
    settle-IsWithin id (λ j. record j { status = running; started_at = some now }) j r (λ x. refl)
      found (start-IsJob j now s) (ground (arith, s)) (ground (arith, w.retained)) w

pub prepare_job-IsWithin :
    (id : ℕ) (j : Job) (r : Registry)
    → find_job id r.jobs ≡ some j
    → j.status ≡ running
    → IsWithin r
    → IsWithin (prepare_job id r)
unfolding prepare_job
prepare_job-IsWithin id j r found s w =
    settle-IsWithin id (λ j. record j { has_data = true }) j r (λ x. refl) found (prepare-IsJob j s)
      (ground (arith, s)) (ground (arith, w.retained)) w

pub cancel-IsWithin :
    (id : ℕ) (authorized : Bool) (now mono : ℕ) (r : Registry)
    → IsWithin r
    → IsWithin (cancel id authorized now mono r).1
unfolding cancel get_job
cancel-IsWithin id authorized now mono r w =
    let x = expire mono r in
    let wx = expire-IsWithin mono r w in
    elim (Option-cases (find_job id x.jobs)) [
      | inl missing ↦ rw (cancel, get_job, missing) wx
      | inr (j, found) ↦ elim (Bool-cases authorized) [
        | inr refused ↦ rw (cancel, get_job, found, refused) wx
        | inl granted ↦ elim (Bool-cases (is_terminal j.status)) [
          | inl ended ↦ rw (cancel, get_job, found, granted, ended) wx
          | inr active ↦
              rw (cancel, get_job, found, granted, active)
                (settle-IsWithin id (cancel_job now mono) j x (λ x. refl) found
                  (cancel_job-IsJob j now mono active) (ground arith) (ground (arith, wx.retained))
                  wx)
        ]
      ]
    ]

pub close-IsWithin : (r : Registry) → IsWithin r → IsWithin (close r)
unfolding close active_count retained_size
close-IsWithin r w = record {
  distinct = tt;
  valid = tt;
  active = omega arith;
  held = omega arith;
  retained = omega arith;
}
