-- ===== src/Jobs/Capacity.antt =====
-- The limits of the registry, over all its runs.
use ai_trading_platform.Prelude.{ℕ, ◌+◌, ◌≤◌, ◌≡◌, some, List, [], ◌∷◌, length, arith, All}
use ai_trading_platform.Jobs.Registry.{
  Job, Registry, find_job, active_count, bodies_size, retained_size,
}
use ai_trading_platform.Jobs.Operations.{expire, settle}
use ai_trading_platform.Jobs.Removal.{IsDistinct, IsUnread}
use ai_trading_platform.Jobs.Eviction.{Evicted, expire_jobs-Evicted}
use ai_trading_platform.Jobs.Updates.{
  IsDistinct-update_job, activity, update_job-measures, All-update_job,
}
use ai_trading_platform.Jobs.Steps.{IsJob}

-- The limits that the constructor sets hold, ids are distinct, and every job can be reported.
pub record IsWithin (r : Registry) : Type 0 where
  pub distinct : IsDistinct r.jobs
  pub valid : All IsJob r.jobs
  pub active : active_count r.jobs ≤ r.max_active
  pub held : length r.jobs ≤ r.max_jobs
  pub retained : retained_size r.jobs ≤ r.max_retained_bytes

pub All-IsUnread : (js : List Job) → All IsJob js → All IsUnread js
All-IsUnread [] a = tt
All-IsUnread (j ∷ js) a = (a.0.1, All-IsUnread js a.1)

-- Fewer jobs of the same registry.
pub Evicted-IsWithin :
    (r : Registry) (js : List Job)
    → Evicted r.jobs js
    → IsWithin r
    → IsWithin (record r { jobs = js })
Evicted-IsWithin r js e w = record {
  distinct = e.distinct w.distinct;
  valid = e.all IsJob w.valid;
  active = ground (arith, e.active, w.active);
  held = ground (arith, e.fewer, w.held);
  retained = ground (arith, e.smaller, w.retained);
}

pub expire-IsWithin : (mono : ℕ) (r : Registry) → IsWithin r → IsWithin (expire mono r)
expire-IsWithin mono r w =
    Evicted-IsWithin r _ (expire_jobs-Evicted mono r.retention_seconds r.jobs w.distinct) w

-- A write to an active job that keeps its id, adds no activity, and whose bodies fit.
pub settle-IsWithin :
    (id : ℕ) (f : Job → Job) (j : Job) (r : Registry)
    → ((x : Job) → (f x).evaluation_id ≡ x.evaluation_id)
    → find_job id r.jobs ≡ some j
    → (IsJob j → IsJob (f j))
    → activity (f j) ≤ activity j
    → retained_size r.jobs + bodies_size (f j).bodies ≤ r.max_retained_bytes + bodies_size j.bodies
    → IsWithin r
    → IsWithin (settle id f r)
settle-IsWithin id f j r keeps found ready acts fits w =
    let m = update_job-measures f id j r.jobs found in
    record {
      distinct = IsDistinct-update_job f keeps id r.jobs w.distinct;
      valid = All-update_job IsJob f id j r.jobs found ready w.valid;
      active = ground (arith, m.1, acts, w.active);
      held = ground (arith, m.0, w.held);
      retained = ground (arith, m.2, fits, w.retained);
    }
