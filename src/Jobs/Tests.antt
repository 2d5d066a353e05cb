-- ===== src/Jobs/Tests.antt =====
-- A registry of one active job, two jobs held and ten bytes retained.
use ai_trading_platform.Prelude.{
  ◌≤◌, ◌≡◌, refl, true, not, ◌&&◌, none, some, [], ◌∷◌, length, ltb, leb, ok, err, if◌then◌else◌,
}
use ai_trading_platform.Timeframe.{one_minute, epoch, timeframe_bucket_start}
use ai_trading_platform.Normalize.Defs.{sorted}
use ai_trading_platform.Jobs.Registry.{
  running, Registry, Job, Bodies, evaluation_result_too_large, strategy_evaluation_busy,
  terminal_jobs, find_job, update_job, active_count, bodies_size, retained_size, job_response,
}
use ai_trading_platform.Jobs.Operations.{
  expire_jobs, make_room, create, start_job, prepare_job, returned, end_job, complete_job, fail_job,
  new_job,
}
use ai_trading_platform.Jobs.Steps.{
  creates, starts, prepares, apply, create_fresh, start_pending, prepare_running, Reaches, stay,
  event,
}
use ai_trading_platform.Jobs.Capacity.{IsWithin}
use ai_trading_platform.Jobs.Promises.{
  new_registry, init_registry, new_registry-IsWithin, reachable_within_limits, create_admits,
  end_job_returned, Reaches-IsWithin,
}

abbrev registry : Registry
registry = new_registry 1 2 10 300

registry_init : init_registry 1 2 10 120 300 ≡ some registry
unfolding init_registry
registry_init = refl

-- After a creation, and with its job started and prepared.
abbrev created : Registry
created = (create (ok one_minute) none 7 epoch epoch 5 registry).1

abbrev started : Registry
started = start_job 7 epoch created

abbrev prepared : Registry
prepared = prepare_job 7 started

abbrev job : Job
job = record (new_job 7 none one_minute epoch epoch) {
  status = running;
  started_at = some epoch;
  has_data = true;
}

abbrev bodies : Bodies
bodies = (1 ∷ 2 ∷ [], 3 ∷ [])

prepared_job : find_job 7 prepared.jobs ≡ some job
unfolding create expire_jobs make_room terminal_jobs sorted active_count job_response
    timeframe_bucket_start start_job prepare_job update_job find_job
prepared_job = refl

abbrev finished : Registry
finished = end_job 7 (returned bodies) epoch 9 prepared

created_job : find_job 7 created.jobs ≡ some (new_job 7 none one_minute epoch epoch)
unfolding create expire_jobs make_room terminal_jobs sorted active_count job_response
    timeframe_bucket_start find_job
created_job = refl

started_job :
    find_job 7 started.jobs
    ≡ some (record (new_job 7 none one_minute epoch epoch) {
      status = running;
      started_at = some epoch;
    })
unfolding create expire_jobs make_room terminal_jobs sorted active_count job_response
    timeframe_bucket_start start_job update_job find_job
started_job = refl

none_held : find_job 7 registry.jobs ≡ none
unfolding find_job
none_held = refl

prepared_run : Reaches registry prepared
unfolding apply
prepared_run =
    event (creates (ok one_minute) none 7 epoch epoch 5) (create_fresh 7 epoch epoch 5 none_held) (
      event (starts 7 epoch) (start_pending 7 epoch _ created_job refl)
        (event (prepares 7) (prepare_running 7 _ started_job refl) stay))

reachable_within_limits_example :
    (active_count prepared.jobs ≤ 1)
    × (length prepared.jobs ≤ 2)
    × (retained_size prepared.jobs ≤ 10)
reachable_within_limits_example =
    reachable_within_limits 1 2 10 120 300 registry prepared registry_init prepared_run

prepared-IsWithin : IsWithin prepared
prepared-IsWithin =
    Reaches-IsWithin registry prepared prepared_run (new_registry-IsWithin 1 2 10 300)

-- The one active job fills the registry.
create_admits_example : (create (ok one_minute) none 8 epoch epoch 6 prepared).0 ≡ (
    if not prepared.closed
      && ltb (active_count prepared.jobs) 1
      && ltb (active_count prepared.jobs) 2
    then ok (new_job 8 none one_minute epoch epoch)
    else err strategy_evaluation_busy)
unfolding prepare_job start_job create active_count expire_jobs terminal_jobs sorted make_room
create_admits_example = create_admits one_minute none 8 epoch epoch 6 prepared prepared-IsWithin

end_job_returned_example :
    find_job 7 finished.jobs
    ≡ some (
        if leb (bodies_size (some bodies)) 10
        then complete_job bodies epoch 9 job
        else fail_job evaluation_result_too_large epoch 9 job)
unfolding prepare_job start_job create active_count expire_jobs terminal_jobs sorted make_room
end_job_returned_example =
    end_job_returned 7 epoch 9 bodies job prepared prepared-IsWithin prepared_job refl
