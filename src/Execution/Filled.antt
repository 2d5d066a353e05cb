-- ===== src/Execution/Filled.antt =====
-- What the orders say is filled is what their fills add up to.
use ai_trading_platform.Prelude.{
  ℕ, ◌+◌, ◌≤◌, ◌≡◌, refl, true, false, Option, none, some, List, [], ◌∷◌, ◌++◌, ltb, ◌==◌,
  if◌then◌else◌, arith, Bool-cases, Option-cases, inl, inr, ok, Ensures, Ensures-ok,
}
use mathlib.Core.Path.{subst}
use ai_trading_platform.Timeframe.{Datetime}
use ai_trading_platform.Execution.Models.{ExecutionEvent, OrderIntent}
use ai_trading_platform.Execution.Ledger.{
  OrderRow, Ledger, record_fill, find_order, put_order, matches_order, filled_order,
}
use ai_trading_platform.Execution.Orders.{create_account}
use ai_trading_platform.Execution.Rows.{find_order-id, find_order-put_order, Revised}
use ai_trading_platform.Execution.Steps.{Reaches, Reaches-keeps, IsAdmission}

-- The quantity of the fills of an order.
unfoldable pub filled_total : ℕ → List ExecutionEvent → ℕ
filled_total k [] = 0
filled_total k (f ∷ fs) =
    if f.internal_order_id == k then f.quantity + filled_total k fs else filled_total k fs

filled_total-append :
    (k : ℕ) (e : ExecutionEvent) (fs : List ExecutionEvent)
    → filled_total k (fs ++ e ∷ [])
      ≡ (if e.internal_order_id == k then filled_total k fs + e.quantity else filled_total k fs)
unfolding filled_total
filled_total-append k e [] = ground arith
filled_total-append k e (f ∷ fs) = ground (arith, filled_total-append k e fs)

-- An order that is not there has no fills; one that is there is filled by them, within its quantity.
abbrev Agrees : ℕ → Option OrderRow → Type 0
Agrees total none = total ≡ 0
Agrees total (some r) =
    (r.order.filled_quantity ≡ total) × (r.order.filled_quantity ≤ r.order.intent.intent_quantity)

Agrees-Revised : (total : ℕ) (o p : Option OrderRow) → Revised o p → Agrees total o → Agrees total p
Agrees-Revised total none none r a = a
Agrees-Revised total none (some s) r a = (cc, omega arith)
Agrees-Revised total (some r) none h a = absurd h
Agrees-Revised total (some r) (some s) (profile, intent, same) a = rw (same, intent) a

IsFilled : Ledger → Type 0
IsFilled l = (k : ℕ) → Agrees (filled_total k l.fills) (find_order k l.orders)

matches_order-fits :
    (r : OrderRow) (e : ExecutionEvent)
    → matches_order r.order e ≡ true
    → r.order.filled_quantity + e.quantity ≤ r.order.intent.intent_quantity
unfolding matches_order
matches_order-fits r e h = ground (arith, h)

module _ (allocate : ℕ → ℕ → ℕ → ℕ) (content_hash : ExecutionEvent → ℕ)
    (intent_hash : OrderIntent → ℕ) where
  admission-IsFilled :
      (l m : Ledger) (e : ExecutionEvent) → IsFilled l → IsAdmission allocate l e m → IsFilled m
  unfolding IsFilled record_fill
  admission-IsFilled l m e i a k =
      let row = a.row in
      let id = find_order-id e.internal_order_id row l.orders a.found in
      let fills : m.fills ≡ l.fills ++ e ∷ [] = rw a.recorded refl in
      let orders : m.orders ≡ put_order (filled_order row.order e) l.orders = rw a.recorded refl in
      let before = i k in
      let put = find_order-put_order k (filled_order row.order e) l.orders in
      elim (Bool-cases (e.internal_order_id == k)) [
        | inl here ↦
            let one : find_order k l.orders ≡ some row = ground (arith, here, a.found) in
            let old : Agrees (filled_total k l.fills) (some row) =
              subst (Agrees (filled_total k l.fills)) one before in
            let named : (row.order.order_id == k) ≡ true = ground (arith, here, id) in
            rw (fills, orders, filled_total-append k e l.fills, put, here, one, named)
              (omega (arith, old.0), matches_order-fits row e a.matched)
        | inr other ↦
            let named : (row.order.order_id == k) ≡ false = ground (arith, other, id) in
            elim (Option-cases (find_order k l.orders)) [
              | inl missing ↦
                  rw (fills, orders, filled_total-append k e l.fills, put, other, missing)
                    (subst (Agrees (filled_total k l.fills)) missing before)
              | inr (r, there) ↦
                  rw (fills, orders, filled_total-append k e l.fills, put, other, there, named)
                    (subst (Agrees (filled_total k l.fills)) there before)
            ]
      ]

  created-IsFilled :
      (account_id source balance : ℕ) (now : Datetime)
      → Ensures IsFilled (create_account account_id source balance now)
  unfolding create_account IsFilled filled_total find_order
  created-IsFilled account_id source balance now = elim (Bool-cases (ltb 0 balance)) [
    | inr empty ↦ rw empty tt
    | inl positive ↦ rw positive (λ k. refl)
  ]

  -- In every ledger that a run from the creation of the account reaches, what an order says is filled
  -- is what the fills that name it add up to, and is within the quantity of its intent.
  pub orders_filled_within :
      (account_id source balance : ℕ) (now : Datetime) (start l : Ledger) (k : ℕ) (r : OrderRow)
      → create_account account_id source balance now ≡ ok start
      → Reaches allocate content_hash intent_hash start l
      → find_order k l.orders ≡ some r
      → (r.order.filled_quantity ≡ filled_total k l.fills)
        × (r.order.filled_quantity ≤ r.order.intent.intent_quantity)
  unfolding IsFilled
  orders_filled_within account_id source balance now start l k r made run found =
      subst (Agrees (filled_total k l.fills)) found (
        Reaches-keeps allocate content_hash intent_hash IsFilled
          (λ l m i v j.
            rw v.same_fills (Agrees-Revised (filled_total j l.fills) _ _ (v.revised j) (i j)))
          admission-IsFilled start l run
          (Ensures-ok IsFilled _ start (created-IsFilled account_id source balance now) made) k)
