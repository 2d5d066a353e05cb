-- ===== src/Jobs/Removal.antt =====
-- What the removal of a job, and of the oldest terminal job, does to the measures of the registry.
use ai_trading_platform.Prelude.{
  ℕ, suc, ◌+◌, ◌≤◌, ◌≡◌, Bool, true, false, Option, none, some, List, [], ◌∷◌, length, ◌==◌,
  if◌then◌else◌, arith, refl, All, inl, inr, Bool-cases,
}
use ai_trading_platform.Normalize.Defs.{insert_sorted, sorted}
use ai_trading_platform.Normalize.Sorting.{All-sorted}
use ai_trading_platform.Jobs.Registry.{
  Job, job_is_terminal, terminal_only, ended_at, terminal_jobs, remove_job, find_job, active_count,
  bodies_size, retained_size,
}

-- No two jobs have one id.
abbrev pub IsDistinct : List Job → Type 0
IsDistinct [] = Unit
IsDistinct (j ∷ js) = (find_job j.evaluation_id js ≡ none) × IsDistinct js

pub find_job-remove_job :
    (id k : ℕ) (js : List Job)
    → IsDistinct js
    → find_job id (remove_job k js) ≡ (if id == k then none else find_job id js)
unfolding find_job remove_job
find_job-remove_job id k [] d = ground arith
find_job-remove_job id k (j ∷ js) d = ground (arith, find_job-remove_job id k js d.1)

pub IsDistinct-remove_job : (k : ℕ) (js : List Job) → IsDistinct js → IsDistinct (remove_job k js)
unfolding find_job remove_job
IsDistinct-remove_job k [] d = tt
IsDistinct-remove_job k (j ∷ js) d =
    ground (arith, IsDistinct-remove_job k js d.1, find_job-remove_job j.evaluation_id k js d.1)

pub All-remove_job : (P : Job → Type 0) (k : ℕ) (js : List Job) → All P js → All P (remove_job k js)
unfolding remove_job
All-remove_job P k [] a = tt
All-remove_job P k (j ∷ js) a = elim (Bool-cases (j.evaluation_id == k)) [
  | inl e ↦ rw e a.1
  | inr n ↦ rw n (a.0, All-remove_job P k js a.1)
]

-- The measures without any assumption on ids.
pub remove_job-le :
    (k : ℕ) (js : List Job)
    → (length (remove_job k js) ≤ length js)
      × (active_count (remove_job k js) ≤ active_count js)
      × (retained_size (remove_job k js) ≤ retained_size js)
unfolding remove_job active_count retained_size
remove_job-le k [] = omega arith
remove_job-le k (j ∷ js) = ground (arith, remove_job-le k js)

-- The measures where the job is there.
pub remove_job-found :
    (k : ℕ) (t : Job) (js : List Job)
    → find_job k js ≡ some t
    → (length js ≡ suc (length (remove_job k js)))
      × (active_count js ≡ (if job_is_terminal t then 0 else 1) + active_count (remove_job k js))
unfolding find_job remove_job active_count
remove_job-found k t [] h = cc
remove_job-found k t (j ∷ js) h = ground (arith, remove_job-found k t js)

-- No active job has the id.
abbrev pub is_settled : Option Job → Bool
is_settled none = true
is_settled (some j) = job_is_terminal j

abbrev pub IsInactive : List Job → ℕ → Type 0
IsInactive js id = is_settled (find_job id js) ≡ true

pub active_count-remove_job :
    (k : ℕ) (js : List Job) → IsInactive js k → active_count (remove_job k js) ≡ active_count js
unfolding find_job remove_job active_count
active_count-remove_job k [] i = refl
active_count-remove_job k (j ∷ js) i = ground (arith, active_count-remove_job k js)

pub IsInactive-remove_job :
    (id k : ℕ) (js : List Job) → IsDistinct js → IsInactive js id → IsInactive (remove_job k js) id
IsInactive-remove_job id k js d i = ground (arith, find_job-remove_job id k js d)

-- The terminal jobs are found under their ids.
abbrev pub IsFound : List Job → Job → Type 0
IsFound js t = (find_job t.evaluation_id js ≡ some t) × (job_is_terminal t ≡ true)

IsFound-cons :
    (j : Job) (js ts : List Job)
    → find_job j.evaluation_id js ≡ none
    → All (IsFound js) ts
    → All (IsFound (j ∷ js)) ts
unfolding find_job
IsFound-cons j js [] n a = tt
IsFound-cons j js (t ∷ ts) n a = (ground arith, IsFound-cons j js ts n a.1)

terminal_only-IsFound : (js : List Job) → IsDistinct js → All (IsFound js) (terminal_only js)
unfolding find_job
terminal_only-IsFound [] d = tt
terminal_only-IsFound (j ∷ js) d =
    let rest = IsFound-cons j js (terminal_only js) d.0 (terminal_only-IsFound js d.1) in
    elim (Bool-cases (job_is_terminal j)) [
      | inl t ↦ rw t ((ground arith, t), rest)
      | inr a ↦ rw a rest
    ]

pub terminal_jobs-IsFound : (js : List Job) → IsDistinct js → All (IsFound js) (terminal_jobs js)
unfolding terminal_jobs
terminal_jobs-IsFound js d =
    All-sorted ended_at (IsFound js) (terminal_only js) (terminal_only-IsFound js d)

insert_sorted-ne_nil : (x : Job) (xs : List Job) → insert_sorted ended_at x xs ≡ [] → ⊥
unfolding insert_sorted
insert_sorted-ne_nil x [] h = cc
insert_sorted-ne_nil x (y ∷ ys) h = ground arith

sorted-nil : (xs : List Job) → sorted ended_at xs ≡ [] → xs ≡ []
unfolding sorted
sorted-nil [] h = refl
sorted-nil (x ∷ xs) h = absurd (insert_sorted-ne_nil x (sorted ended_at xs) h)

terminal_only-nil : (js : List Job) → terminal_only js ≡ [] → active_count js ≡ length js
unfolding active_count
terminal_only-nil [] h = refl
terminal_only-nil (j ∷ js) h = ground (arith, terminal_only-nil js)

-- Where no job is terminal every job is active.
pub terminal_jobs-nil : (js : List Job) → terminal_jobs js ≡ [] → active_count js ≡ length js
unfolding terminal_jobs
terminal_jobs-nil js h = terminal_only-nil js (sorted-nil (terminal_only js) h)

-- An active job has no body yet.
abbrev pub IsUnread : Job → Type 0
IsUnread j = job_is_terminal j ≡ false → bodies_size j.bodies ≡ 0

terminal_only-nil-retained_size :
    (js : List Job) → All IsUnread js → terminal_only js ≡ [] → retained_size js ≡ 0
unfolding retained_size
terminal_only-nil-retained_size [] a h = refl
terminal_only-nil-retained_size (j ∷ js) a h =
    let rest = terminal_only-nil-retained_size js a.1 in
    elim (Bool-cases (job_is_terminal j)) [
      | inl t ↦ ground arith
      | inr n ↦ let empty = a.0 n in ground arith
    ]

-- Where no job is terminal nothing is retained.
pub terminal_jobs-nil-retained_size :
    (js : List Job) → All IsUnread js → terminal_jobs js ≡ [] → retained_size js ≡ 0
unfolding terminal_jobs
terminal_jobs-nil-retained_size js a h =
    terminal_only-nil-retained_size js a (sorted-nil (terminal_only js) h)
