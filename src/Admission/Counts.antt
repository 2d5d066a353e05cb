-- ===== src/Admission/Counts.antt =====
-- The dict of counters of `LocalCostBudget`, as an association list: the code never iterates over it.
use ai_trading_platform.Prelude.{
  ℕ, ◌+◌, ◌≡◌, List, [], ◌∷◌, arith, length, if◌then◌else◌, Bool, true, false,
}
use mathlib.Core.Logic.{ite}

module _ {K : Type 0} (same : Discrete K) where
  -- `counts.get(key, 0)`
  unfoldable pub get_count : K → List (K × ℕ) → ℕ
  get_count k [] = 0
  get_count k ((j, n) ∷ m) = ite (same j k) n (get_count k m)

  -- `key in counts`
  unfoldable pub has_key : K → List (K × ℕ) → Bool
  has_key k [] = false
  has_key k ((j, n) ∷ m) = ite (same j k) true (has_key k m)

  -- `counts[key] = counts.get(key, 0) + 1`
  unfoldable pub increment : K → List (K × ℕ) → List (K × ℕ)
  increment k [] = (k, 1) ∷ []
  increment k ((j, n) ∷ m) = ite (same j k) ((j, n + 1) ∷ m) ((j, n) ∷ increment k m)

  pub get_count-increment :
      (k j : K) (m : List (K × ℕ))
      → get_count j (increment k m) ≡ ite (same k j) (get_count j m + 1) (get_count j m)
  unfolding get_count increment
  get_count-increment k j [] = ground arith
  get_count-increment k j ((i, n) ∷ m) = ground (arith, get_count-increment k j m)

  pub length-increment :
      (k : K) (m : List (K × ℕ))
      → length (increment k m) ≡ length m + (if has_key k m then 0 else 1)
  unfolding has_key increment
  length-increment k [] = ground arith
  length-increment k ((i, n) ∷ m) = ground (arith, length-increment k m)

  pub has_key-increment :
      (k j : K) (m : List (K × ℕ)) → has_key j (increment k m) ≡ ite (same k j) true (has_key j m)
  unfolding has_key increment
  has_key-increment k j [] = ground arith
  has_key-increment k j ((i, n) ∷ m) = ground (arith, has_key-increment k j m)
