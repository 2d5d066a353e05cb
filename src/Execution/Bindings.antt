-- ===== src/Execution/Bindings.antt =====
-- Later rows of the orders bind a fill to the profile and the plan that the earlier rows did.
use ai_trading_platform.Prelude.{
  ℕ, ◌≡◌, ◌∙◌, refl, Option, none, some, List, ◌==◌, arith, Bool-cases, Option-cases, inl, inr,
}
use ai_trading_platform.Execution.Models.{Order}
use ai_trading_platform.Execution.Ledger.{OrderRow, find_order, put_order}
use ai_trading_platform.Execution.Rows.{find_order-put_order, Revised}

-- The later rows bind a fill of the earlier ones to the same profile and plan.
abbrev pub Bound : Option OrderRow → Option OrderRow → Type 0
Bound none s = Unit
Bound (some r) none = ⊥
Bound (some r) (some s) = (s.frozen_profile ≡ r.frozen_profile) × (s.order.intent ≡ r.order.intent)

abbrev pub IsBound : List OrderRow → List OrderRow → Type 0
IsBound rs ss = (k : ℕ) → Bound (find_order k rs) (find_order k ss)

pub Bound-Revised : (r s : Option OrderRow) → Revised r s → Bound r s
Bound-Revised none s h = tt
Bound-Revised (some r) none h = h
Bound-Revised (some r) (some s) h = (h.0, h.1)

pub Bound-found :
    (o p : Option OrderRow) (r : OrderRow)
    → Bound o p
    → o ≡ some r
    → (s : OrderRow) × (p ≡ some s)
      × (s.frozen_profile ≡ r.frozen_profile)
      × (s.order.intent ≡ r.order.intent)
Bound-found none p r h e = cc
Bound-found (some q) none r h e = absurd h
Bound-found (some q) (some s) r h e = let same : q ≡ r = cc in (s, refl, cc (h.0), cc (h.1))

pub IsBound-put_order :
    (r : OrderRow) (o : Order) (rs : List OrderRow)
    → find_order o.order_id rs ≡ some r
    → o.intent ≡ r.order.intent
    → IsBound rs (put_order o rs)
IsBound-put_order r o rs found same k = elim (Option-cases (find_order k rs)) [
  | inl missing ↦ rw missing tt
  | inr (s, here) ↦ elim (Bool-cases (o.order_id == k)) [
    | inl e ↦
        let one : s ≡ r = ground (arith, e, here, found) in
        rw (find_order-put_order k o rs, here, e, one) (refl, same)
    | inr e ↦ rw (find_order-put_order k o rs, here, e) (refl, refl)
  ]
]

pub Bound-trans : (o p q : Option OrderRow) → Bound o p → Bound p q → Bound o q
Bound-trans none p q h k = tt
Bound-trans (some r) none q h k = absurd h
Bound-trans (some r) (some s) none h k = absurd k
Bound-trans (some r) (some s) (some t) h k = (k.0 ∙ h.0, k.1 ∙ h.1)

pub Bound-refl : (o : Option OrderRow) → Bound o o
Bound-refl none = tt
Bound-refl (some r) = (refl, refl)
