-- ===== src/Execution/Steps.antt =====
-- The runs of the ledger: each event is one transaction of the gateway, with the values that the
-- clock, the provider and the caller give it. One that raises is rolled back.
mod Revisions
mod Admissions
pub use ai_trading_platform.Execution.Steps.Revisions.{
  IsRevision, Keeps, change_order-IsRevision, submit_order-IsRevision, IsRevision-refl,
}
pub use ai_trading_platform.Execution.Steps.Admissions.{IsAdmission, admit-cases}
use ai_trading_platform.Prelude.{
  ℕ, ◌≡◌, ◌⊎◌, Bool, Option, Ensures-ok, arith, inl, inr, Result, ok, err, ◌>>=◌, Ensures,
}
use ai_trading_platform.Timeframe.{Datetime}
use ai_trading_platform.Execution.Models.{
  ExecutionError, InstrumentProfile, OrderIntent, Order, OrderSubmission, CancelStatus,
  ExecutionEvent,
}
use ai_trading_platform.Execution.Ledger.{Ledger, admit}
use ai_trading_platform.Execution.Orders.{
  submit_order, received, change_order, save_submission, cancellation, end_cancel, refused,
  observed,
}

pub data Event : Type 0 where
  admits : (active allow_new_fill : Bool) → ExecutionEvent → InstrumentProfile → Event
  submits :
      (active : Bool) (order_id over_close : ℕ) → Datetime → OrderIntent → InstrumentProfile → Event
  answers : Option OrderSubmission → (unavailable invalid order_id : ℕ) → Event
  cancels : (active : Bool) → Option CancelStatus → Datetime → ℕ → Event
  refuses : (reason order_id : ℕ) → Event
  observes : Datetime → ℕ → Event

Ensures-ledger :
    {A : Type 0} (P : A × Ledger → Type 0) (Q : Ledger → Type 0)
    (m : Result ExecutionError (A × Ledger))
    → ((result : A × Ledger) → P result → Q result.1)
    → Ensures P m
    → Ensures Q (m >>= λ result. ok result.1)
Ensures-ledger P Q (ok result) f p = f result p
Ensures-ledger P Q (err e) f p = tt

-- The ledger after an event that does not raise.
module _ (allocate : ℕ → ℕ → ℕ → ℕ) (content_hash : ExecutionEvent → ℕ)
    (intent_hash : OrderIntent → ℕ) where
  unfoldable pub apply : Event → Ledger → Result ExecutionError Ledger
  apply (admits active allow_new_fill e profile) l =
      admit allocate content_hash active allow_new_fill e profile l >>= λ result. ok result.1
  apply (submits active order_id over_close now i profile) l =
      submit_order intent_hash active order_id over_close now i profile l >>= λ result. ok result.1
  apply (answers receipt unavailable invalid order_id) l =
      save_submission receipt unavailable invalid order_id l >>= λ result. ok result.1
  apply (cancels active answer now order_id) l =
      end_cancel active answer now order_id l >>= λ result. ok result.1
  apply (refuses reason order_id) l =
      change_order (λ o. ok (refused reason o)) order_id l >>= λ result. ok result.1
  apply (observes t order_id) l =
      change_order (λ o. ok (observed t o)) order_id l >>= λ result. ok result.1

  pub data Reaches : Ledger → Ledger → Type 0 where
    stay : {l : Ledger} → Reaches l l
    event : {l m n : Ledger} (v : Event) → apply v l ≡ ok m → Reaches m n → Reaches l n

  Ensures-change_order :
      (change : Order → Result ExecutionError Order) (k : ℕ) (l : Ledger)
      → Keeps change
      → Ensures
          (λ m. IsRevision l m ⊎ ((e : ExecutionEvent) × IsAdmission allocate l e m))
          (change_order change k l >>= λ result. ok result.1)
  Ensures-change_order change k l keeps =
      Ensures-ledger (λ result. IsRevision l result.1) _ (change_order change k l)
        (λ result r. inl r) (change_order-IsRevision change k l keeps)

  -- An event records a fill, or changes orders only.
  pub apply-cases :
      (v : Event) (l : Ledger)
      → Ensures
          (λ m. IsRevision l m ⊎ ((e : ExecutionEvent) × IsAdmission allocate l e m))
          (apply v l)
  unfolding apply save_submission end_cancel received cancellation
  apply-cases (admits active allow_new_fill e profile) l =
      Ensures-ledger _ _ (admit allocate content_hash active allow_new_fill e profile l)
        (λ result c. elim c [
          | inl (same, known) ↦ inl (rw same (IsRevision-refl l))
          | inr (is_e, a) ↦ inr (e, a)
        ])
        (admit-cases allocate content_hash active allow_new_fill e profile l)
  apply-cases (submits active order_id over_close now i profile) l =
      Ensures-ledger _ _ (submit_order intent_hash active order_id over_close now i profile l)
        (λ result r. inl r)
        (submit_order-IsRevision intent_hash active order_id over_close now i profile l)
  apply-cases (answers receipt unavailable invalid order_id) l =
      Ensures-change_order _ order_id l (λ o p h. ground (arith, h))
  apply-cases (cancels active answer now order_id) l =
      Ensures-change_order _ order_id l (λ o p h. ground (arith, h))
  apply-cases (refuses reason order_id) l =
      Ensures-change_order _ order_id l (λ o p h. ground (arith, h))
  apply-cases (observes t order_id) l =
      Ensures-change_order _ order_id l (λ o p h. ground (arith, h))

  -- What an event keeps, a run keeps.
  pub Reaches-keeps :
      (P : Ledger → Type 0)
      → ((l m : Ledger) → P l → IsRevision l m → P m)
      → ((l m : Ledger) (e : ExecutionEvent) → P l → IsAdmission allocate l e m → P m)
      → (l m : Ledger) → Reaches l m
      → P l
      → P m
  Reaches-keeps P revise record_one l m stay p = p
  Reaches-keeps P revise record_one l m (event {m = next} v made rest) p =
      elim (Ensures-ok _ (apply v l) next (apply-cases v l) made) [
        | inl r ↦ Reaches-keeps P revise record_one next m rest (revise l next p r)
        | inr (e, a) ↦ Reaches-keeps P revise record_one next m rest (record_one l next e p a)
      ]
