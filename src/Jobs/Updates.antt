-- ===== src/Jobs/Updates.antt =====
-- What a write to one job does to the measures of the registry.
use ai_trading_platform.Prelude.{
  ℕ, suc, ◌+◌, ◌≡◌, sym, false, none, some, List, [], ◌∷◌, ◌++◌, length, ◌==◌, if◌then◌else◌, arith,
  refl, All, inl, inr, Bool-cases,
}
use mathlib.Core.Path.{subst}
use ai_trading_platform.Jobs.Registry.{
  Job, job_is_terminal, find_job, update_job, active_count, bodies_size, retained_size,
}
use ai_trading_platform.Jobs.Removal.{IsDistinct}

module _ (f : Job → Job) (keeps : (j : Job) → (f j).evaluation_id ≡ j.evaluation_id) where
  find_job-update_job :
      (k id : ℕ) (js : List Job) → find_job k js ≡ none → find_job k (update_job id f js) ≡ none
  unfolding find_job update_job
  find_job-update_job k id [] h = refl
  find_job-update_job k id (j ∷ js) h = ground (arith, keeps j, find_job-update_job k id js)

  pub IsDistinct-update_job :
      (id : ℕ) (js : List Job) → IsDistinct js → IsDistinct (update_job id f js)
  unfolding find_job update_job
  IsDistinct-update_job id [] d = tt
  IsDistinct-update_job id (j ∷ js) d = elim (Bool-cases (j.evaluation_id == id)) [
    | inl e ↦ rw e (ground (arith, d.0, keeps j), d.1)
    | inr n ↦ rw n (find_job-update_job j.evaluation_id id js d.0, IsDistinct-update_job id js d.1)
  ]

-- The activity of one job, 0 or 1.
abbrev pub activity : Job → ℕ
activity j = if job_is_terminal j then 0 else 1

pub update_job-measures :
    (f : Job → Job) (id : ℕ) (j : Job) (js : List Job)
    → find_job id js ≡ some j
    → (length (update_job id f js) ≡ length js)
      × (active_count (update_job id f js) + activity j ≡ active_count js + activity (f j))
      × (retained_size (update_job id f js) + bodies_size j.bodies
          ≡ retained_size js + bodies_size (f j).bodies)
unfolding find_job update_job active_count retained_size
update_job-measures f id j [] h = cc
update_job-measures f id j (k ∷ js) h = elim (Bool-cases (k.evaluation_id == id)) [
  | inl e ↦ ground (arith, e, h)
  | inr n ↦ ground (arith, n, update_job-measures f id j js)
]

pub All-update_job :
    (P : Job → Type 0) (f : Job → Job) (id : ℕ) (j : Job) (js : List Job)
    → find_job id js ≡ some j
    → (P j → P (f j))
    → All P js
    → All P (update_job id f js)
unfolding find_job update_job
All-update_job P f id j [] h p a = tt
All-update_job P f id j (k ∷ js) h p a = elim (Bool-cases (k.evaluation_id == id)) [
  | inl e ↦
      let here : k ≡ j = ground (arith, e, h) in
      rw e (subst (λ x. P (f x)) (sym here) (p (subst P here a.0)), a.1)
  | inr n ↦ rw n (a.0, All-update_job P f id j js (ground (arith, h, n)) p a.1)
]

-- A new job at the end.
pub append-measures :
    (j : Job) (js : List Job)
    → (length (js ++ j ∷ []) ≡ suc (length js))
      × (active_count (js ++ j ∷ []) ≡ active_count js + activity j)
      × (retained_size (js ++ j ∷ []) ≡ retained_size js + bodies_size j.bodies)
unfolding active_count retained_size
append-measures j [] = ground arith
append-measures j (k ∷ js) = ground (arith, append-measures j js)

pub All-append :
    (P : Job → Type 0) (j : Job) (js : List Job) → All P js → P j → All P (js ++ j ∷ [])
All-append P j [] a p = (p, tt)
All-append P j (k ∷ js) a p = (a.0, All-append P j js a.1 p)

find_job-append :
    (id : ℕ) (j : Job) (js : List Job)
    → find_job id js ≡ none
    → j.evaluation_id == id ≡ false
    → find_job id (js ++ j ∷ []) ≡ none
unfolding find_job
find_job-append id j [] h n = ground arith
find_job-append id j (k ∷ js) h n = ground (arith, find_job-append id j js)

pub IsDistinct-append :
    (j : Job) (js : List Job)
    → find_job j.evaluation_id js ≡ none
    → IsDistinct js
    → IsDistinct (js ++ j ∷ [])
unfolding find_job
IsDistinct-append j [] h d = (refl, tt)
IsDistinct-append j (k ∷ js) h d = (
  find_job-append k.evaluation_id j js d.0 (ground (arith, h)),
  IsDistinct-append j js (ground (arith, h)) d.1,
)
