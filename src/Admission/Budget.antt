-- ===== src/Admission/Budget.antt =====
-- `LocalCostBudget` of backend/app/core/admission.py. Subjects and accounts are of any type with a
-- decidable equality (strings in the source); the monotonic clock is read once in a check and is
-- given to it, as a natural number of the unit of the window. The lock makes each check one step.
use ai_trading_platform.Prelude.{
  String, ℕ, ◌+◌, ◌/◌, Bool, false, ◌&&◌, ◌||◌, Option, none, some, List, [], ◌∷◌, ltb, leb, ◌==◌,
  if◌then◌else◌, length,
}
use ai_trading_platform.Admission.Counts.{get_count, has_key, increment}

pub data CostClass : Type 0 where
  cheap_read history_read analytics_read financial_command provider_triggering : CostClass
  admin_security : CostClass

pub record AdmissionContext (I : Type 0) : Type 0 where
  pub route : String
  pub cost : CostClass
  pub subject : Option I
  pub account : Option I

-- the tuple (cost, subject, account) that a counter is kept under
pub data Key (I : Type 0) : Type 0 where
  key : CostClass → Option I → Option I → Key I

abbrev pub key_cost : {I : Type 0} → Key I → CostClass
key_cost (key c s a) = c

pub data Denial : Type 0 where
  rate_limited unavailable : Denial

-- `limits`, `window`, `max_keys`, `_counts` and `_window`
pub record Budget (I : Type 0) : Type 0 where
  pub limits : CostClass → ℕ
  pub window_seconds : ℕ
  pub max_keys : ℕ
  pub counts : List (Key I × ℕ)
  pub window : Option ℕ

abbrev pub is_quota : ℕ → Bool
is_quota v = leb 1 v && leb v 1000000

-- `__init__`: a budget, or the exception of a bound that is not met.
unfoldable pub new_budget : {I : Type 0} → (CostClass → ℕ) → ℕ → ℕ → Option (Budget I)
new_budget limits window_seconds max_keys =
    if is_quota (limits cheap_read)
      && (is_quota (limits history_read)
          && (is_quota (limits analytics_read)
              && (is_quota (limits financial_command)
                  && (is_quota (limits provider_triggering) && is_quota (limits admin_security)))))
    then (if (leb 1 window_seconds && leb window_seconds 3600)
          && (leb 16 max_keys && leb max_keys 100000)
        then some (record {
          limits = limits;
          window_seconds = window_seconds;
          max_keys = max_keys;
          counts = [];
          window = none;
        })
        else none)
    else none

module _ {I : Type 0} (same : Discrete I) where
  pub Key-discrete : Discrete (Key I)
  Key-discrete = hlevel same

  -- The window that `now` falls in, with the counters of an older window dropped.
  unfoldable pub roll : ℕ → Budget I → Budget I
  roll now b =
      let current = now / b.window_seconds in
      elim b.window [
        | none ↦ record b { counts = []; window = some current }
        | some w ↦ if w == current then b else record b { counts = []; window = some current }
      ]

  -- The counters of a request: the class, and the subject's own if there is one.
  abbrev pub request_keys : CostClass → Option I → Option I → List (Key I)
  request_keys cost none account = key cost none none ∷ []
  request_keys cost (some s) account = key cost none none ∷ key cost (some s) account ∷ []

  -- `sum(k not in counts for k in keys)`
  abbrev pub new_keys : List (Key I) → List (Key I × ℕ) → ℕ
  new_keys [] m = 0
  new_keys (k ∷ ks) m = (if has_key Key-discrete k m then 0 else 1) + new_keys ks m

  -- `any(counts.get(k, 0) >= limit for k in keys)`
  abbrev pub any_spent : ℕ → List (Key I) → List (Key I × ℕ) → Bool
  any_spent limit [] m = false
  any_spent limit (k ∷ ks) m = leb limit (get_count Key-discrete k m) || any_spent limit ks m

  abbrev pub increment_all : List (Key I) → List (Key I × ℕ) → List (Key I × ℕ)
  increment_all [] m = m
  increment_all (k ∷ ks) m = increment_all ks (increment Key-discrete k m)

  -- `check` in the current window, on the cost, the subject and the account of a request.
  unfoldable pub admit : CostClass → Option I → Option I → Budget I → Budget I × Option Denial
  admit cost subject account b =
      let keys = request_keys cost subject account in
      if ltb b.max_keys (length b.counts + new_keys keys b.counts)
      then (b, some unavailable)
      else if any_spent (b.limits cost) keys b.counts
      then (b, some rate_limited)
      else (record b { counts = increment_all keys b.counts }, none)

  -- `check`: the budget afterwards, and the denial if one is raised.
  unfoldable pub check : ℕ → AdmissionContext I → Budget I → Budget I × Option Denial
  check now ctx budget = admit ctx.cost ctx.subject ctx.account (roll now budget)

  -- A run of checks, each with its reading of the clock; the denials in order.
  unfoldable pub check_all :
      List (ℕ × AdmissionContext I) → Budget I → Budget I × List (Option Denial)
  check_all [] b = (b, [])
  check_all ((now, ctx) ∷ rest) b =
      let (b', denial) = check now ctx b in
      let (last, denials) = check_all rest b' in (last, denial ∷ denials)
