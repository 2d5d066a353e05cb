-- ===== src/Admission/Verdict.antt =====
-- `check_admission` of backend/app/core/admission.py: what a backend does becomes one of three
-- outcomes. A backend is another program's, so its outcome is the argument.
use ai_trading_platform.Prelude.{ℕ, ◌≡◌, ◌↔◌, ◌⊎◌, arith, ◌==◌, if◌then◌else◌}

-- `backend.check(context)` returns, or raises an `AppError` of a status or any other exception.
pub data BackendOutcome : Type 0 where
  returned_none returned_value other_exception : BackendOutcome
  app_error : ℕ → BackendOutcome

pub data Verdict : Type 0 where
  admitted : Verdict
  denied : ℕ → Verdict

unfoldable pub check_admission : BackendOutcome → Verdict
check_admission returned_none = admitted
check_admission returned_value = denied 503
check_admission (app_error status) = denied (if status == 429 then 429 else 503)
check_admission other_exception = denied 503

-- A request is admitted exactly if its backend returned None; it is told to slow down (429) exactly
-- if the backend raised an AppError of that status; any other denial is 503, so nothing else that a
-- backend raises shows.
pub check_admission_fails_closed :
    (o : BackendOutcome)
    → ((check_admission o ≡ admitted) ↔ (o ≡ returned_none))
      × ((check_admission o ≡ denied 429) ↔ (o ≡ app_error 429))
      × ((check_admission o ≡ admitted)
          ⊎ ((check_admission o ≡ denied 429) ⊎ (check_admission o ≡ denied 503)))
unfolding check_admission
check_admission_fails_closed o = ground arith
