-- ===== src/Execution/Kept.antt =====
-- The orders of backend/app/execution that the settlement of a fill and the cursor of an observation
-- write to, one row at a time.
use ai_trading_platform.Prelude.{
  ℕ, ◌≡◌, refl, true, some, List, ◌==◌, ok, ◌>>=◌, Ensures, Ensures-ok, Ensures-map, Ensures->>=,
  Bool-cases, Option-cases, Result-cases, inl, inr, arith,
}
use ai_trading_platform.Candle.{Candle}
use ai_trading_platform.Execution.Models.{ExecutionError, Order, ExecutionEvent, InstrumentProfile}
use ai_trading_platform.Execution.Ledger.{
  OrderRow, Ledger, find_order, put_order, filled_order, record_fill, admit,
}
use ai_trading_platform.Execution.Orders.{change_order, refused}
use ai_trading_platform.Execution.Rows.{find_order-id, find_order-put_order}
use ai_trading_platform.Execution.Steps.{admit-cases}
use ai_trading_platform.Execution.Paper.{PaperPolicy, normalize_event}
use ai_trading_platform.Execution.Observation.{is_rejection, settle_fill}

-- The order of a row, of which a predicate holds.
pub record At (C : Order → Type 0) (k : ℕ) (rs : List OrderRow) : Type 0 where
  pub row : OrderRow
  pub found : find_order k rs ≡ some row
  pub holds : C row.order

pub put_order-At :
    (C : Order → Type 0) (o : Order) (r : OrderRow) (rs : List OrderRow) (k : ℕ)
    → find_order o.order_id rs ≡ some r
    → (C r.order → C o)
    → At C k rs
    → At C k (put_order o rs)
put_order-At C o r rs k here keep at_k = elim (Bool-cases (o.order_id == k)) [
  | inl e ↦
      let same : r ≡ at_k.row = ground (arith, e, here, at_k.found) in
      record {
        row = record at_k.row { order = o };
        found = rw (find_order-put_order k o rs, at_k.found, e) refl;
        holds = keep (rw same at_k.holds);
      }
  | inr e ↦ record {
    row = at_k.row;
    found = rw (find_order-put_order k o rs, at_k.found, e) refl;
    holds = at_k.holds;
  }
]

pub put_order-makes :
    (C : Order → Type 0) (o : Order) (r : OrderRow) (rs : List OrderRow)
    → find_order o.order_id rs ≡ some r
    → C o
    → At C o.order_id (put_order o rs)
put_order-makes C o r rs here holds = record {
  row = record r { order = o };
  found = rw (find_order-put_order o.order_id o rs, here) (ground arith);
  holds = holds;
}

-- A predicate on the acceptance and the cursor of an order alone.
abbrev pub IsOfCursor : (Order → Type 0) → Type 0
IsOfCursor C =
    (o p : Order)
    → p.accepted_at ≡ o.accepted_at
    → p.last_observation_at ≡ o.last_observation_at
    → C o
    → C p

refused-At :
    (C : Order → Type 0) (reason j k : ℕ) (l : Ledger)
    → IsOfCursor C
    → At C k l.orders
    → Ensures
        (λ m. At C k m.orders)
        (change_order (λ o. ok (refused reason o)) j l >>= λ result. ok result.1)
unfolding change_order
refused-At C reason j k l only at_k = elim (Option-cases (find_order j l.orders)) [
  | inl missing ↦ rw (change_order, missing) tt
  | inr (r, found) ↦
      let named : find_order r.order.order_id l.orders ≡ some r =
        cc (find_order-id j r l.orders found) in
      rw (change_order, found)
        (put_order-At C (refused reason r.order) r l.orders k named
          (only r.order (refused reason r.order) refl refl) at_k)
]

module _ (allocate : ℕ → ℕ → ℕ → ℕ) (content_hash : ExecutionEvent → ℕ) where
  admit-At :
      (C : Order → Type 0) (e : ExecutionEvent) (profile : InstrumentProfile) (k : ℕ) (l : Ledger)
      → IsOfCursor C
      → At C k l.orders
      → Ensures
          (λ result. At C k result.1.orders)
          (admit allocate content_hash true true e profile l)
  unfolding record_fill
  admit-At C e profile k l only at_k =
      Ensures-map _ _ (admit allocate content_hash true true e profile l)
        (λ result c. elim c [
          | inl (same, known) ↦ rw same at_k
          | inr (is_e, a) ↦
              let o = a.row.order in
              let named : find_order o.order_id l.orders ≡ some a.row =
                cc (find_order-id e.internal_order_id a.row l.orders a.found, a.found) in
              rw a.recorded (
                put_order-At C (filled_order o e) a.row l.orders k named
                  (only o (filled_order o e) refl refl) at_k)
        ])
        (admit-cases allocate content_hash true true e profile l)

  pub settle_fill-At :
      (policy : PaperPolicy) (event_id : ℕ → Candle → ℕ) (candle_hash : Candle → ℕ)
      (reason : ExecutionError → ℕ) (C : Order → Type 0) (profile : InstrumentProfile) (j : ℕ)
      (proposal : ExecutionEvent) (k : ℕ) (l : Ledger)
      → IsOfCursor C
      → At C k l.orders
      → Ensures
          (λ m. At C k m.orders)
          (settle_fill allocate content_hash policy event_id candle_hash reason profile j proposal
            l)
  unfolding settle_fill
  settle_fill-At policy event_id candle_hash reason C profile j proposal k l only at_k =
      Ensures->>= (λ m. At C k m.orders) (normalize_event policy proposal) _
        (λ e passed. elim (Result-cases (admit allocate content_hash true true e profile l)) [
          | inr (result, admitted) ↦ rw admitted (
              Ensures-ok _ (admit allocate content_hash true true e profile l) result
                (admit-At C e profile k l only at_k) admitted)
          | inl (x, raised) ↦ elim (Bool-cases (is_rejection x)) [
            | inl soft ↦ rw (raised, soft) (refused-At C (reason x) j k l only at_k)
            | inr hard ↦ rw (raised, hard) tt
          ]
        ])
