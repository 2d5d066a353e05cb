-- ===== src/Admission/Windows.antt =====
-- `LocalCostBudget` from one window to another.
use ai_trading_platform.Prelude.{
  ℕ, ◌/◌, ◌≤◌, ◌≡◌, Option, none, some, List, [], ◌∷◌, arith, ap, refl, ◌≢◌, ◌∙◌,
}
use ai_trading_platform.Admission.Counts.{get_count, has_key}
use ai_trading_platform.Admission.Budget.{
  CostClass, cheap_read, AdmissionContext, Budget, new_budget, roll, admit, check, check_all,
}
use ai_trading_platform.Admission.Limits.{check-frame}

module _ {I : Type 0} (same : Discrete I) where
  check-max_keys :
      (now : ℕ) (ctx : AdmissionContext I) (b : Budget I)
      → (check same now ctx b).0.max_keys ≡ b.max_keys
  unfolding check admit roll
  check-max_keys now ctx b = ground arith

  roll-frame :
      (now : ℕ) (b : Budget I)
      → ((roll same now b).limits ≡ b.limits) × ((roll same now b).max_keys ≡ b.max_keys)
  unfolding roll
  roll-frame now b = ground arith

  check_all-frame :
      (rs : List (ℕ × AdmissionContext I)) (b : Budget I)
      → ((check_all same rs b).0.limits ≡ b.limits)
        × ((check_all same rs b).0.max_keys ≡ b.max_keys)
        × ((check_all same rs b).0.window_seconds ≡ b.window_seconds)
  unfolding check_all
  check_all-frame [] b = (refl, refl, refl)
  check_all-frame ((now, ctx) ∷ rs) b =
      let b' = (check same now ctx b).0 in
      let (limits, keys, seconds) = check_all-frame rs b' in
      let (window, same_seconds, same_limits) = check-frame same now ctx b in
      (limits ∙ same_limits, keys ∙ check-max_keys now ctx b, seconds ∙ same_seconds)

  -- With no counters, a request is admitted under limits above zero and room for two keys.
  admit_empty :
      (cost : CostClass) (subject account : Option I) (b : Budget I)
      → b.counts ≡ []
      → 1 ≤ b.limits cost
      → 2 ≤ b.max_keys
      → (admit same cost subject account b).1 ≡ none
  unfolding admit get_count has_key
  admit_empty cost none account b e l m = rw e (ground arith)
  admit_empty cost (some s) account b e l m = rw e (ground arith)

  roll_empty :
      (now : ℕ) (b : Budget I)
      → b.window ≢ some (now / b.window_seconds)
      → (roll same now b).counts ≡ []
  unfolding roll
  roll_empty now b h = ground arith

  new_budget-bounds :
      (limits : CostClass → ℕ) (window_seconds max_keys : ℕ) (b : Budget I) (c : CostClass)
      → new_budget limits window_seconds max_keys ≡ some b
      → (1 ≤ b.limits c) × (2 ≤ b.max_keys)
  unfolding new_budget
  new_budget-bounds limits window_seconds max_keys b cheap_read h = ground arith
  new_budget-bounds limits window_seconds max_keys b _ h = ground arith

  -- After any run of checks on a new budget, a request is admitted when the clock is in another window
  -- than that of the last check, whatever was spent or denied before.
  pub next_window_admits :
      (limits : CostClass → ℕ) (window_seconds max_keys : ℕ) (fresh : Budget I)
      (rs : List (ℕ × AdmissionContext I)) (now : ℕ) (ctx : AdmissionContext I)
      → new_budget limits window_seconds max_keys ≡ some fresh
      → (check_all same rs fresh).0.window ≢ some (now / fresh.window_seconds)
      → (check same now ctx (check_all same rs fresh).0).1 ≡ none
  unfolding check
  next_window_admits limits window_seconds max_keys fresh rs now ctx made other =
      let b = (check_all same rs fresh).0 in
      let (same_limits, same_keys, same_seconds) = check_all-frame rs fresh in
      let (quota, room) = new_budget-bounds limits window_seconds max_keys fresh ctx.cost made in
      let (rolled_limits, rolled_keys) = roll-frame now b in
      let limit : (roll same now b).limits ctx.cost ≡ fresh.limits ctx.cost =
        ap (λ (f : CostClass → ℕ). f ctx.cost) (rolled_limits ∙ same_limits) in
      admit_empty ctx.cost ctx.subject ctx.account (roll same now b)
        (roll_empty now b (rw same_seconds other)) (omega arith) (omega arith)
