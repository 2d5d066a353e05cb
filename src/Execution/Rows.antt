-- ===== src/Execution/Rows.antt =====
-- Lookups in the tables of the ledger after a write.
use ai_trading_platform.Prelude.{
  ℕ, ◌≡◌, refl, Option, none, some, List, [], ◌∷◌, ◌++◌, ◌==◌, if◌then◌else◌, All, arith,
}
use ai_trading_platform.Execution.Models.{Order, ExecutionEvent}
use ai_trading_platform.Execution.Ledger.{OrderRow, find_order, put_order, find_fill}

pub find_order-id :
    (k : ℕ) (r : OrderRow) (rs : List OrderRow) → find_order k rs ≡ some r → r.order.order_id ≡ k
unfolding find_order
find_order-id k r [] h = cc
find_order-id k r (x ∷ xs) h = ground (arith, h, find_order-id k r xs)

pub find_order-put_order :
    (k : ℕ) (o : Order) (rs : List OrderRow)
    → find_order k (put_order o rs) ≡ elim (find_order k rs) [
      | none ↦ none
      | some r ↦ if o.order_id == k then some (record r { order = o }) else some r
    ]
unfolding find_order put_order
find_order-put_order k o [] = refl
find_order-put_order k o (r ∷ rs) = ground (arith, find_order-put_order k o rs)

pub find_order-append :
    (k : ℕ) (n : OrderRow) (rs : List OrderRow)
    → find_order k (rs ++ n ∷ []) ≡ elim (find_order k rs) [
      | none ↦ if n.order.order_id == k then some n else none
      | some r ↦ some r
    ]
unfolding find_order
find_order-append k n [] = refl
find_order-append k n (r ∷ rs) = ground (arith, find_order-append k n rs)

pub find_fill-append :
    (k : ℕ) (e : ExecutionEvent) (fs : List ExecutionEvent)
    → find_fill k (fs ++ e ∷ []) ≡ elim (find_fill k fs) [
      | none ↦ if e.external_fill_id == k then some e else none
      | some f ↦ some f
    ]
unfolding find_fill
find_fill-append k e [] = refl
find_fill-append k e (f ∷ fs) = ground (arith, find_fill-append k e fs)

pub All-append {ℓ} :
    {A : Type 0} (P : A → Type ℓ) (x : A) (xs : List A) → All P xs → P x → All P (xs ++ x ∷ [])
All-append P x [] a p = (p, tt)
All-append P x (y ∷ ys) a p = (a.0, All-append P x ys a.1 p)

-- What an order row becomes when no fill is recorded: its profile, its intent and what is filled stay,
-- and a new one has nothing filled.
abbrev pub Revised : Option OrderRow → Option OrderRow → Type 0
Revised none none = Unit
Revised none (some s) = s.order.filled_quantity ≡ 0
Revised (some r) none = ⊥
Revised (some r) (some s) =
    (s.frozen_profile ≡ r.frozen_profile)
    × (s.order.intent ≡ r.order.intent)
    × (s.order.filled_quantity ≡ r.order.filled_quantity)

pub Revised-refl : (o : Option OrderRow) → Revised o o
Revised-refl none = tt
Revised-refl (some r) = (refl, refl, refl)
