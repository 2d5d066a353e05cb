-- ===== src/Execution/Steps/Revisions.antt =====
-- The changes of execution/repository.py's orders that record no fill: a new order and a change of one.
use ai_trading_platform.Prelude.{
  ℕ, ◌≡◌, refl, Bool, not, some, List, [], ◌∷◌, ◌++◌, ◌==◌, arith, is_some, Bool-cases,
  Option-cases, inl, inr, Result, ok, raise_if, Ensures, Ensures->>=,
}
use ai_trading_platform.Timeframe.{Datetime}
use ai_trading_platform.Execution.Models.{
  ExecutionError, InstrumentProfile, validate_units, OrderIntent, valid_intent, Order,
}
use ai_trading_platform.Execution.Ledger.{OrderRow, Ledger, find_order, put_order, held_of}
use ai_trading_platform.Execution.Orders.{find_command, submit_order, new_order, change_order}
use ai_trading_platform.Execution.Rows.{
  find_order-id, find_order-put_order, find_order-append, Revised, Revised-refl,
}

-- A change of orders that records no fill.
pub record IsRevision (l m : Ledger) : Type 0 where
  pub same_account : m.account ≡ l.account
  pub same_fills : m.fills ≡ l.fills
  pub revised : (k : ℕ) → Revised (find_order k l.orders) (find_order k m.orders)

-- A change of an order that may raise.
abbrev pub Keeps : (Order → Result ExecutionError Order) → Type 0
Keeps f =
    (o p : Order)
    → f o ≡ ok p
    → (p.order_id ≡ o.order_id) × (p.intent ≡ o.intent) × (p.filled_quantity ≡ o.filled_quantity)

Revised-put_order :
    (k : ℕ) (r : OrderRow) (o : Order) (rs : List OrderRow)
    → find_order o.order_id rs ≡ some r
    → o.intent ≡ r.order.intent
    → o.filled_quantity ≡ r.order.filled_quantity
    → Revised (find_order k rs) (find_order k (put_order o rs))
Revised-put_order k r o rs found same total = elim (Option-cases (find_order k rs)) [
  | inl missing ↦ rw (find_order-put_order k o rs, missing) tt
  | inr (s, here) ↦ elim (Bool-cases (o.order_id == k)) [
    | inl e ↦
        let one : s ≡ r = ground (arith, e, here, found) in
        rw (find_order-put_order k o rs, here, e, one) (refl, same, total)
    | inr e ↦ rw (find_order-put_order k o rs, here, e) (refl, refl, refl)
  ]
]

pub change_order-IsRevision :
    (change : Order → Result ExecutionError Order) (k : ℕ) (l : Ledger)
    → Keeps change
    → Ensures (λ result. IsRevision l result.1) (change_order change k l)
unfolding change_order
change_order-IsRevision change k l keeps = elim (Option-cases (find_order k l.orders)) [
  | inl missing ↦ rw (change_order, missing) tt
  | inr (r, found) ↦
      rw (change_order, found)
        (Ensures->>= (λ result. IsRevision l result.1) (change r.order) _
          (λ o made.
            let (same_id, same_intent, same_total) = keeps r.order o made in
            let here : find_order o.order_id l.orders ≡ some r =
              cc (find_order-id k r l.orders found) in
            record {
              same_account = refl;
              same_fills = refl;
              revised = λ i. Revised-put_order i r o l.orders here same_intent same_total;
            }))
]

-- The orders' rows after a new one.
Revised-append :
    (k : ℕ) (n : OrderRow) (rs : List OrderRow)
    → n.order.filled_quantity ≡ 0
    → Revised (find_order k rs) (find_order k (rs ++ n ∷ []))
Revised-append k n rs empty = elim (Option-cases (find_order k rs)) [
  | inl missing ↦ elim (Bool-cases (n.order.order_id == k)) [
    | inl e ↦ rw (find_order-append k n rs, missing, e) empty
    | inr e ↦ rw (find_order-append k n rs, missing, e) tt
  ]
  | inr (r, here) ↦ rw (find_order-append k n rs, here) (refl, refl, refl)
]

pub IsRevision-refl : (l : Ledger) → IsRevision l l
IsRevision-refl l = record {
  same_account = refl;
  same_fills = refl;
  revised = λ k. Revised-refl (find_order k l.orders);
}

pub submit_order-IsRevision :
    (intent_hash : OrderIntent → ℕ) (active : Bool) (order_id over_close : ℕ) (now : Datetime)
    (i : OrderIntent) (profile : InstrumentProfile) (l : Ledger)
    → Ensures
        (λ result. IsRevision l result.1)
        (submit_order intent_hash active order_id over_close now i profile l)
unfolding submit_order new_order
submit_order-IsRevision intent_hash active order_id over_close now i profile l =
    let Promise : Order × Ledger → Type 0 = λ result. IsRevision l result.1 in
    let order =
      new_order order_id over_close now i profile l.account.account_id
        (held_of i.intent_symbol l.account.positions) in
    Ensures->>= Promise (raise_if (not (valid_intent i)) _) _ (λ u c.
      Ensures->>= Promise (validate_units profile i.limit_price i.intent_quantity) _ (λ u c.
        elim (Option-cases (find_command i.command_id l.orders)) [
          | inr (prior, sent) ↦
              elim (Bool-cases (intent_hash prior.order.intent == intent_hash i)) [
                | inl same ↦ rw (sent, same) (IsRevision-refl l)
                | inr changed ↦ rw (sent, changed) tt
              ]
          | inl first ↦ rw first (
              Ensures->>= Promise (raise_if (not active) _) _ (λ u c.
                elim (Bool-cases (is_some (find_order order_id l.orders))) [
                  | inl taken ↦ rw taken tt
                  | inr fresh ↦ rw fresh (record {
                    same_account = refl;
                    same_fills = refl;
                    revised = λ k.
                        Revised-append k (record { order = order; frozen_profile = profile })
                          l.orders refl;
                  })
                ]))
        ]))
