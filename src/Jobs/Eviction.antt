-- ===== src/Jobs/Eviction.antt =====
-- What the three loops that remove jobs do: `_expire`, the loop of `create` and the loop of `_run`.
use ai_trading_platform.Prelude.{
  ℕ, zero, suc, ◌+◌, ◌≤◌, ◌<◌, ◌≡◌, ◌∙◌, sym, true, false, none, some, List, [], ◌∷◌, length, leb,
  arith, refl, All, ◌⊎◌, inl, inr, Bool-cases,
}
use mathlib.Core.Path.{subst}
use ai_trading_platform.Jobs.Registry.{
  Job, job_is_terminal, terminal_jobs, remove_job, find_job, active_count, retained_size, ended_at,
}
use ai_trading_platform.Jobs.Operations.{expire_jobs, make_room, make_space}
use ai_trading_platform.Jobs.Removal.{
  IsDistinct, find_job-remove_job, IsDistinct-remove_job, All-remove_job, remove_job-le,
  remove_job-found, IsInactive, active_count-remove_job, IsInactive-remove_job, IsFound,
  terminal_jobs-IsFound, terminal_jobs-nil, IsUnread, terminal_jobs-nil-retained_size,
}

-- What every removal of terminal jobs keeps.
pub record Evicted (before after : List Job) : Type 1 where
  pub distinct : IsDistinct before → IsDistinct after
  pub all : (P : Job → Type 0) → All P before → All P after
  pub fresh : (id : ℕ) → IsDistinct before → find_job id before ≡ none → find_job id after ≡ none
  pub kept :
      (id : ℕ) (j : Job)
      → IsDistinct before
      → find_job id before ≡ some j
      → job_is_terminal j ≡ false
      → find_job id after ≡ some j
  pub active : active_count after ≡ active_count before
  pub fewer : length after ≤ length before
  pub smaller : retained_size after ≤ retained_size before

pub Evicted-refl : (js : List Job) → Evicted js js
Evicted-refl js = record {
  distinct = λ d. d;
  all = λ P a. a;
  fresh = λ id d e. e;
  kept = λ id j d e n. e;
  active = refl;
  fewer = omega arith;
  smaller = omega arith;
}

pub Evicted-trans :
    (xs ys zs : List Job) → IsDistinct xs → Evicted xs ys → Evicted ys zs → Evicted xs zs
Evicted-trans xs ys zs dx p q = record {
  distinct = λ d. q.distinct (p.distinct d);
  all = λ P a. q.all P (p.all P a);
  fresh = λ id d e. q.fresh id (p.distinct d) (p.fresh id d e);
  kept = λ id j d e n. q.kept id j (p.distinct d) (p.kept id j d e n) n;
  active = q.active ∙ p.active;
  fewer = ground (arith, p.fewer, q.fewer);
  smaller = ground (arith, p.smaller, q.smaller);
}

remove_job-Evicted :
    (k : ℕ) (js : List Job) → IsDistinct js → IsInactive js k → Evicted js (remove_job k js)
remove_job-Evicted k js d i = record {
  distinct = IsDistinct-remove_job k js;
  all = λ P. All-remove_job P k js;
  fresh = λ id d0 e. ground (arith, find_job-remove_job id k js d0);
  kept = λ id j d0 e n. ground (arith, i, find_job-remove_job id k js d0);
  active = active_count-remove_job k js i;
  fewer = (remove_job-le k js).0;
  smaller = (remove_job-le k js).2;
}

-- One turn of the loop of `create` or of `_run`: the oldest terminal job goes.
record Turn (js : List Job) : Type 1 where
  oldest : Job
  rest : List Job
  is_oldest : terminal_jobs js ≡ oldest ∷ rest
  evicted : Evicted js (remove_job oldest.evaluation_id js)
  count : length js ≡ suc (length (remove_job oldest.evaluation_id js))

oldest-Turn : (js ts : List Job) (t : Job) → IsDistinct js → terminal_jobs js ≡ t ∷ ts → Turn js
oldest-Turn js ts t d e =
    let found = subst (All (IsFound js)) e (terminal_jobs-IsFound js d) in
    record {
      oldest = t;
      rest = ts;
      is_oldest = e;
      evicted = remove_job-Evicted t.evaluation_id js d (ground (arith, found.0.0, found.0.1));
      count = (remove_job-found t.evaluation_id t js found.0.0).0;
    }

Turn-cases-go :
    (js ts : List Job) → IsDistinct js → terminal_jobs js ≡ ts → (terminal_jobs js ≡ []) ⊎ Turn js
Turn-cases-go js [] d e = inl e
Turn-cases-go js (t ∷ ts) d e = inr (oldest-Turn js ts t d e)

Turn-cases : (js : List Job) → IsDistinct js → (terminal_jobs js ≡ []) ⊎ Turn js
Turn-cases js d = Turn-cases-go js (terminal_jobs js) d refl

pub make_room-Evicted :
    (fuel max_jobs : ℕ) (js : List Job) → IsDistinct js → Evicted js (make_room fuel max_jobs js)
unfolding make_room
make_room-Evicted zero max_jobs js d = Evicted-refl js
make_room-Evicted (suc fuel) max_jobs js d = elim (Bool-cases (leb max_jobs (length js))) [
  | inr room ↦ rw room (Evicted-refl js)
  | inl full ↦ elim (Turn-cases js d) [
    | inl none_left ↦ rw (full, none_left) (Evicted-refl js)
    | inr t ↦
        rw (full, t.is_oldest)
          (Evicted-trans js (remove_job t.oldest.evaluation_id js) _ d t.evicted (
            make_room-Evicted fuel max_jobs (remove_job t.oldest.evaluation_id js)
              (t.evicted.distinct d)))
  ]
]

-- With a turn for each job the loop ends because there is room or because every job is active.
pub make_room-ends :
    (fuel max_jobs : ℕ) (js : List Job)
    → IsDistinct js
    → length js ≤ fuel
    → (length (make_room fuel max_jobs js) < max_jobs)
      ⊎ (active_count js ≡ length (make_room fuel max_jobs js))
unfolding make_room active_count
make_room-ends zero max_jobs [] d h = inr refl
make_room-ends zero max_jobs (j ∷ js) d h = absurd (omega (arith, h))
make_room-ends (suc fuel) max_jobs js d h = elim (Bool-cases (leb max_jobs (length js))) [
  | inr room ↦ rw room (inl (ground (arith, room)))
  | inl full ↦ elim (Turn-cases js d) [
    | inl none_left ↦ rw (full, none_left) (inr (terminal_jobs-nil js none_left))
    | inr t ↦
        rw (full, t.is_oldest, sym t.evicted.active)
          (make_room-ends fuel max_jobs (remove_job t.oldest.evaluation_id js)
            (t.evicted.distinct d) (omega (arith, h, t.count)))
  ]
]

pub make_space-Evicted :
    (fuel size limit : ℕ) (js : List Job)
    → IsDistinct js
    → Evicted js (make_space fuel size limit js).0
unfolding make_space
make_space-Evicted zero size limit js d = Evicted-refl js
make_space-Evicted (suc fuel) size limit js d =
    elim (Bool-cases (leb (retained_size js + size) limit)) [
      | inl fits ↦ rw (make_space, fits) (Evicted-refl js)
      | inr full ↦ elim (Turn-cases js d) [
        | inl none_left ↦ rw (make_space, full, none_left) (Evicted-refl js)
        | inr t ↦
            rw (make_space, full, t.is_oldest)
              (Evicted-trans js (remove_job t.oldest.evaluation_id js) _ d t.evicted (
                make_space-Evicted fuel size limit (remove_job t.oldest.evaluation_id js)
                  (t.evicted.distinct d)))
      ]
    ]

-- With a turn for each job, bodies within the limit always find space.
pub make_space-fits :
    (fuel size limit : ℕ) (js : List Job)
    → IsDistinct js
    → All IsUnread js
    → length js ≤ fuel
    → size ≤ limit
    → ((make_space fuel size limit js).1 ≡ true)
      × (retained_size (make_space fuel size limit js).0 + size ≤ limit)
unfolding make_space retained_size
make_space-fits zero size limit [] d a h s = ground arith
make_space-fits zero size limit (j ∷ js) d a h s = absurd (omega (arith, h))
make_space-fits (suc fuel) size limit js d a h s =
    elim (Bool-cases (leb (retained_size js + size) limit)) [
      | inl fits ↦ rw (make_space, fits) (refl, ground (arith, fits))
      | inr full ↦ elim (Turn-cases js d) [
        | inl none_left ↦
            let empty = terminal_jobs-nil-retained_size js a none_left in ground (arith, full)
        | inr t ↦
            rw (make_space, full, t.is_oldest)
              (make_space-fits fuel size limit (remove_job t.oldest.evaluation_id js)
                (t.evicted.distinct d) (t.evicted.all IsUnread a) (omega (arith, h, t.count)) s)
      ]
    ]

All-IsInactive :
    (k : ℕ) (ts js : List Job)
    → IsDistinct js
    → All (λ t. IsInactive js t.evaluation_id) ts
    → All (λ t. IsInactive (remove_job k js) t.evaluation_id) ts
All-IsInactive k [] js d a = tt
All-IsInactive k (t ∷ ts) js d a =
    (IsInactive-remove_job t.evaluation_id k js d a.0, All-IsInactive k ts js d a.1)

All-IsFound-IsInactive :
    (js ts : List Job) → All (IsFound js) ts → All (λ t. IsInactive js t.evaluation_id) ts
All-IsFound-IsInactive js [] a = tt
All-IsFound-IsInactive js (t ∷ ts) a =
    (ground (arith, a.0.0, a.0.1), All-IsFound-IsInactive js ts a.1)

expire_snapshot-Evicted :
    (now retention : ℕ) (ts js : List Job)
    → IsDistinct js
    → All (λ t. IsInactive js t.evaluation_id) ts
    → Evicted js (expire_jobs now retention ts js)
unfolding expire_jobs
expire_snapshot-Evicted now retention [] js d a = Evicted-refl js
expire_snapshot-Evicted now retention (t ∷ ts) js d a =
    elim (Bool-cases (leb (ended_at t + retention) now)) [
      | inr young ↦ rw young (expire_snapshot-Evicted now retention ts js d a.1)
      | inl old ↦ rw old (
          let first = remove_job-Evicted t.evaluation_id js d a.0 in
          Evicted-trans js (remove_job t.evaluation_id js) _ d first (
            expire_snapshot-Evicted now retention ts (remove_job t.evaluation_id js)
              (first.distinct d) (All-IsInactive t.evaluation_id ts js d a.1)))
    ]

pub expire_jobs-Evicted :
    (now retention : ℕ) (js : List Job)
    → IsDistinct js
    → Evicted js (expire_jobs now retention (terminal_jobs js) js)
expire_jobs-Evicted now retention js d =
    expire_snapshot-Evicted now retention (terminal_jobs js) js d
      (All-IsFound-IsInactive js (terminal_jobs js) (terminal_jobs-IsFound js d))
