-- ===== src/Execution/Net.antt =====
-- The positions of execution/accounting.py and the fills of execution/repository.py: the runs of the
-- ledger, and what each symbol holds after one.
mod Exposure
mod Moves
unfoldable pub use ai_trading_platform.Execution.Net.Exposure.{exposure, net_of}
use ai_trading_platform.Prelude.{
  ℕ, ◌+◌, ◌-◌, ◌≡◌, ◌∙◌, sym, refl, ap, true, false, Option, ltb, ◌==◌, ◌+ℤ◌, ℤ, arith, Bool-cases,
  inl, inr, ok, Ensures, Ensures-ok, Ensures->>=,
}
use mathlib.Core.Path.{subst}
use ai_trading_platform.Timeframe.{Datetime}
use ai_trading_platform.Execution.Models.{ExecutionEvent, OrderIntent, Account, InstrumentProfile}
use ai_trading_platform.Execution.Accounting.{
  Step, check_fill, find_position, fill_step, finish_fill, apply_fill, side_direction,
}
use ai_trading_platform.Execution.Ledger.{Ledger, record_fill}
use ai_trading_platform.Execution.Orders.{create_account}
use ai_trading_platform.Execution.Steps.{Reaches, Reaches-keeps, IsAdmission}
use ai_trading_platform.Execution.Net.Exposure.{
  signed, moved_by, net_of-append, find_position-put_position,
}
use ai_trading_platform.Execution.Net.Moves.{IsMoved, plus_zero, fill_step-IsMoved}

finish_fill-exposure :
    (k : ℕ) (a : Account) (e : ExecutionEvent) (s : Step)
    → IsMoved a e s
    → exposure k (finish_fill a e s).positions ≡ exposure k a.positions +ℤ moved_by k e
unfolding finish_fill exposure
finish_fill-exposure k a e s i = elim (Bool-cases (e.event_symbol == k)) [
  | inl here ↦
      let same : e.event_symbol ≡ k = ground (arith, here) in
      let named : (s.position.position_symbol == k) ≡ true = ground (arith, here, i.symbol) in
      rw (exposure, find_position-put_position k s.position a.positions, named, here)
        (subst
          (λ x.
            signed s.position.direction s.position.held
            ≡ exposure x a.positions +ℤ signed (side_direction e.side) e.quantity)
          same i.moved)
  | inr other ↦
      let named : (s.position.position_symbol == k) ≡ false = ground (arith, other, i.symbol) in
      rw (exposure, find_position-put_position k s.position a.positions, named, other)
        (plus_zero (exposure k a.positions))
]

apply_fill-exposure :
    (allocate : ℕ → ℕ → ℕ → ℕ) (k : ℕ) (a : Account) (e : ExecutionEvent) (p : InstrumentProfile)
    (plan : Option ℕ)
    → Ensures
        (λ b. exposure k b.positions ≡ exposure k a.positions +ℤ moved_by k e)
        (apply_fill allocate a e p plan)
unfolding apply_fill
apply_fill-exposure allocate k a e p plan =
    let Promise : Account → Type 0 =
      λ b. exposure k b.positions ≡ exposure k a.positions +ℤ moved_by k e in
    Ensures->>= Promise (check_fill a e p) _ (λ u checked.
      Ensures->>= Promise (fill_step allocate a e p plan) _ (λ s made.
        finish_fill-exposure k a e s (
          Ensures-ok (IsMoved a e) (fill_step allocate a e p plan) s
            (fill_step-IsMoved allocate a e p plan) made)))

IsNet : ℕ → Ledger → Type 0
IsNet k l = exposure k l.account.positions ≡ net_of k l.fills

module _ (allocate : ℕ → ℕ → ℕ → ℕ) (content_hash : ExecutionEvent → ℕ)
    (intent_hash : OrderIntent → ℕ) where
  admission-IsNet :
      (k : ℕ) (l m : Ledger) (e : ExecutionEvent)
      → IsNet k l
      → IsAdmission allocate l e m
      → IsNet k m
  unfolding IsNet record_fill
  admission-IsNet k l m e i a =
      let moved =
        Ensures-ok (λ b. exposure k b.positions ≡ exposure k l.account.positions +ℤ moved_by k e) _
          a.updated
          (apply_fill-exposure allocate k l.account e a.row.frozen_profile
            a.row.order.intent.plan_reference)
          a.applied in
      rw a.recorded (moved ∙ ap (λ x. x +ℤ moved_by k e) i ∙ sym (net_of-append k e l.fills))

  created-IsNet :
      (k account_id source balance : ℕ) (now : Datetime)
      → Ensures (IsNet k) (create_account account_id source balance now)
  unfolding create_account IsNet exposure find_position net_of
  created-IsNet k account_id source balance now = elim (Bool-cases (ltb 0 balance)) [
    | inr empty ↦ rw empty tt
    | inl positive ↦ rw positive refl
  ]

  -- In every ledger that a run from the creation of the account reaches, the account holds of each
  -- symbol what its fills bought less what they sold, short where that is below zero.
  pub position_is_net :
      (account_id source balance : ℕ) (now : Datetime) (start l : Ledger) (k : ℕ)
      → create_account account_id source balance now ≡ ok start
      → Reaches allocate content_hash intent_hash start l
      → exposure k l.account.positions ≡ net_of k l.fills
  unfolding IsNet
  position_is_net account_id source balance now start l k made run =
      Reaches-keeps allocate content_hash intent_hash (IsNet k)
        (λ l m i r. rw (r.same_account, r.same_fills) i) (admission-IsNet k) start l run
        (Ensures-ok (IsNet k) _ start (created-IsNet k account_id source balance now) made)
