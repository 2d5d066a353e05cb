-- ===== src/Admission/Tests.antt =====
-- A budget of one financial command a window, with subjects that are numbers.
use native.Mathlib.Decide.{ℕ_discrete}
use ai_trading_platform.Prelude.{ℕ, ◌/◌, ◌≤◌, ◌≡◌, ◌≢◌, refl, none, some, List, [], ◌∷◌, arith}
use ai_trading_platform.Admission.Counts.{get_count, has_key, increment}
use ai_trading_platform.Admission.Budget.{
  financial_command, AdmissionContext, rate_limited, Budget, new_budget, roll, admit, check,
  check_all,
}
use ai_trading_platform.Admission.Limits.{IsWithin, check-IsWithin, admitted, window_quota}
use ai_trading_platform.Admission.Windows.{next_window_admits}

abbrev budget : Budget ℕ
budget = record { limits = λ c. 1; window_seconds = 60; max_keys = 16; counts = []; window = none }

budget_new : new_budget (λ c. 1) 60 16 ≡ some budget
unfolding new_budget
budget_new = refl

budget-IsWithin : IsWithin ℕ_discrete budget
unfolding get_count
budget-IsWithin = record { quotas = λ k. omega arith; bounded = omega arith }

abbrev command : ℕ → AdmissionContext ℕ
command subject = record {
  route = "/paper/orders";
  cost = financial_command;
  subject = some subject;
  account = none;
}

abbrev requests : List (ℕ × AdmissionContext ℕ)
requests = (61, command 1) ∷ (70, command 2) ∷ (119, command 1) ∷ []

-- A second subject does not get round the quota of the class.
second_denied :
    (check_all ℕ_discrete requests budget).1 ≡ none ∷ some rate_limited ∷ some rate_limited ∷ []
unfolding check_all check admit roll get_count has_key increment ℕ_discrete
second_denied = ground arith

check-IsWithin_example : IsWithin ℕ_discrete (check ℕ_discrete 61 (command 1) budget).0
check-IsWithin_example = check-IsWithin ℕ_discrete 61 (command 1) budget budget-IsWithin

window_quota_example :
    admitted ℕ_discrete financial_command requests (check_all ℕ_discrete requests budget).1 ≤ 1
window_quota_example =
    window_quota ℕ_discrete financial_command 1 requests budget budget-IsWithin
      (refl, (refl, (refl, tt)))

abbrev spent : Budget ℕ
spent = (check ℕ_discrete 61 (command 1) budget).0

spent_denies : (check ℕ_discrete 70 (command 2) spent).1 ≡ some rate_limited
unfolding check admit roll get_count has_key increment ℕ_discrete
spent_denies = ground arith

last_window : (check_all ℕ_discrete requests budget).0.window ≢ some (120 / budget.window_seconds)
unfolding check_all check admit roll get_count has_key increment ℕ_discrete
last_window = ground arith

-- The quota of the first window is spent; the second opens at 120.
next_window_admits_example :
    (check ℕ_discrete 120 (command 2) (check_all ℕ_discrete requests budget).0).1 ≡ none
next_window_admits_example =
    next_window_admits ℕ_discrete (λ c. 1) 60 16 budget requests 120 (command 2) budget_new
      last_window
