-- ===== src/Admission/Limits.antt =====
-- The quotas of `LocalCostBudget`: every counter stays within the limit of its class, and no window
-- admits more requests of a class than its limit.
use mathlib.Core.Logic.{ite}
use ai_trading_platform.Prelude.{
  ℕ, ◌+◌, ◌/◌, ◌<◌, ◌≤◌, ◌≡◌, Option, none, some, List, [], ◌∷◌, length, arith, ap,
}
use ai_trading_platform.Admission.Counts.{
  get_count, increment, get_count-increment, length-increment, has_key-increment,
}
use ai_trading_platform.Admission.Budget.{
  CostClass, AdmissionContext, Key, key, key_cost, Denial, Budget, Key-discrete, roll, admit, check,
  check_all,
}

pub CostClass-discrete : Discrete CostClass
CostClass-discrete = hlevel

module _ {I : Type 0} (same : Discrete I) where
  abbrev pub count_of : Key I → List (Key I × ℕ) → ℕ
  count_of = get_count (Key-discrete same)

  -- Every counter is within the limit of its class, and there are at most `max_keys` of them.
  pub record IsWithin (b : Budget I) : Type 0 where
    pub quotas : (k : Key I) → count_of k b.counts ≤ b.limits (key_cost k)
    pub bounded : length b.counts ≤ b.max_keys

  roll-IsWithin : (now : ℕ) (b : Budget I) → IsWithin b → IsWithin (roll same now b)
  unfolding roll get_count
  roll-IsWithin now b w = record {
    quotas = λ k. ground (arith, w.quotas k);
    bounded = ground (arith, w.bounded);
  }

  -- One more of a key whose counter is below the limit of its class.
  increment-IsWithin :
      (j k : Key I) (limit : CostClass → ℕ) (m : List (Key I × ℕ))
      → count_of j m < limit (key_cost j)
      → count_of k m ≤ limit (key_cost k)
      → count_of k (increment (Key-discrete same) j m) ≤ limit (key_cost k)
  increment-IsWithin j k limit m h le =
      ground (arith, get_count-increment (Key-discrete same) j k m)

  admit-quotas :
      (cost : CostClass) (subject account : Option I) (b : Budget I) (k : Key I)
      → ((j : Key I) → count_of j b.counts ≤ b.limits (key_cost j))
      → count_of k (admit same cost subject account b).0.counts
        ≤ (admit same cost subject account b).0.limits (key_cost k)
  unfolding admit
  admit-quotas cost none account b k w =
      ground (arith, w k, increment-IsWithin (key cost none none) k b.limits b.counts)
  admit-quotas cost (some s) account b k w =
      let first = key cost none none in
      let second = key cost (some s) account in
      let m = increment (Key-discrete same) first b.counts in
      ground (
        arith,
        w k,
        get_count-increment (Key-discrete same) first second b.counts,
        increment-IsWithin first k b.limits b.counts,
        increment-IsWithin second k b.limits m,
      )

  admit-bounded :
      (cost : CostClass) (subject account : Option I) (b : Budget I)
      → length b.counts ≤ b.max_keys
      → length (admit same cost subject account b).0.counts
        ≤ (admit same cost subject account b).0.max_keys
  unfolding admit
  admit-bounded cost none account b h =
      ground (arith, length-increment (Key-discrete same) (key cost none none) b.counts)
  admit-bounded cost (some s) account b h =
      let first = key cost none none in
      let second = key cost (some s) account in
      let m = increment (Key-discrete same) first b.counts in
      ground (
        arith,
        length-increment (Key-discrete same) first b.counts,
        length-increment (Key-discrete same) second m,
        has_key-increment (Key-discrete same) first second b.counts,
      )

  -- A check keeps every counter within the limit of its class, and their number within `max_keys`,
  -- whether it admits or denies.
  pub check-IsWithin :
      (now : ℕ) (ctx : AdmissionContext I) (b : Budget I)
      → IsWithin b
      → IsWithin (check same now ctx b).0
  unfolding check
  check-IsWithin now ctx b w =
      let r = roll-IsWithin now b w in
      record {
        quotas = λ k. admit-quotas ctx.cost ctx.subject ctx.account (roll same now b) k r.quotas;
        bounded = admit-bounded ctx.cost ctx.subject ctx.account (roll same now b) r.bounded;
      }

  -- 1 for an admitted request of the class, else 0.
  abbrev pub admits : CostClass → CostClass → Option Denial → ℕ
  admits c cost none = ite (CostClass-discrete cost c) 1 0
  admits c cost (some d) = 0

  admit-count :
      (c cost : CostClass) (subject account : Option I) (b : Budget I)
      → count_of (key c none none) (admit same cost subject account b).0.counts
        ≡ count_of (key c none none) b.counts + admits c cost (admit same cost subject account b).1
  unfolding admit
  admit-count c cost none account b = ground (
    arith,
    get_count-increment (Key-discrete same) (key cost none none) (key c none none) b.counts,
  )
  admit-count c cost (some s) account b =
      let first = key cost none none in
      let second = key cost (some s) account in
      let m = increment (Key-discrete same) first b.counts in
      ground (
        arith,
        get_count-increment (Key-discrete same) first (key c none none) b.counts,
        get_count-increment (Key-discrete same) second (key c none none) m,
      )

  -- How many requests of a class a run of checks admits.
  abbrev pub admitted : CostClass → List (ℕ × AdmissionContext I) → List (Option Denial) → ℕ
  admitted c [] ds = 0
  admitted c (r ∷ rs) [] = 0
  admitted c (r ∷ rs) (d ∷ ds) = admits c r.1.cost d + admitted c rs ds

  -- All the readings of the clock fall into one window.
  abbrev pub InWindow : ℕ → ℕ → List (ℕ × AdmissionContext I) → Type 0
  InWindow seconds w [] = Unit
  InWindow seconds w (r ∷ rs) = (r.0 / seconds ≡ w) × InWindow seconds w rs

  pub check-frame :
      (now : ℕ) (ctx : AdmissionContext I) (b : Budget I)
      → ((check same now ctx b).0.window ≡ some (now / b.window_seconds))
        × ((check same now ctx b).0.window_seconds ≡ b.window_seconds)
        × ((check same now ctx b).0.limits ≡ b.limits)
  unfolding check admit roll
  check-frame now ctx b = ground arith

  roll-same :
      (now : ℕ) (b : Budget I) → b.window ≡ some (now / b.window_seconds) → roll same now b ≡ b
  unfolding roll
  roll-same now b h = ground arith

  check-count :
      (c : CostClass) (now : ℕ) (ctx : AdmissionContext I) (b : Budget I)
      → count_of (key c none none) (check same now ctx b).0.counts
        ≡ count_of (key c none none) (roll same now b).counts
          + admits c ctx.cost (check same now ctx b).1
  unfolding check
  check-count c now ctx b = admit-count c ctx.cost ctx.subject ctx.account (roll same now b)

  admitted_from :
      (c : CostClass) (w : ℕ) (rs : List (ℕ × AdmissionContext I)) (b : Budget I)
      → IsWithin b
      → b.window ≡ some w
      → InWindow b.window_seconds w rs
      → count_of (key c none none) b.counts + admitted c rs (check_all same rs b).1 ≤ b.limits c
  unfolding check_all
  admitted_from c w [] b within h inside = omega (arith, within.quotas (key c none none))
  admitted_from c w ((now, ctx) ∷ rs) b within h inside =
      let b' = (check same now ctx b).0 in
      let (window, seconds, limits) = check-frame now ctx b in
      let steady : roll same now b ≡ b = roll-same now b (rw inside.0 h) in
      let same_limit : b'.limits c ≡ b.limits c = ap (λ (f : CostClass → ℕ). f c) limits in
      let here : count_of (key c none none) b'.counts
          ≡ count_of (key c none none) b.counts + admits c ctx.cost (check same now ctx b).1 =
        rw steady at (check-count c now ctx b) in
      let later =
        admitted_from c w rs b' (check-IsWithin now ctx b within) (rw inside.0 at window)
          (rw seconds inside.1) in
      omega arith

  -- From any budget within its limits, a run of checks whose readings of the clock all fall into one
  -- window admits at most `limits[c]` requests of each class `c`, whatever their subjects and
  -- accounts are and whatever the counters held before.
  pub window_quota :
      (c : CostClass) (w : ℕ) (rs : List (ℕ × AdmissionContext I)) (b : Budget I)
      → IsWithin b
      → InWindow b.window_seconds w rs
      → admitted c rs (check_all same rs b).1 ≤ b.limits c
  unfolding check_all
  window_quota c w [] b within inside = omega arith
  window_quota c w ((now, ctx) ∷ rs) b within inside =
      let b' = (check same now ctx b).0 in
      let (window, seconds, limits) = check-frame now ctx b in
      let same_limit : b'.limits c ≡ b.limits c = ap (λ (f : CostClass → ℕ). f c) limits in
      let here = check-count c now ctx b in
      let later =
        admitted_from c w rs b' (check-IsWithin now ctx b within) (rw inside.0 at window)
          (rw seconds inside.1) in
      omega arith
