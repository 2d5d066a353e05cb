-- ===== src/Execution/Filling.antt =====
-- A fill keeps the books of an account: cash is what the trades made of the initial balance.
use ai_trading_platform.Prelude.{
  ℕ, ◌+◌, ◌-◌, ◌≡◌, ◌∙◌, sym, refl, true, false, Option, none, some, List, [], ◌∷◌, ◌++◌, ltb, ◌==◌,
  pos, ◌+ℤ◌, amounts, eq_parts, is_some, if◌then◌else◌, All, arith, Bool-cases, Option-cases, inl,
  inr, ok, Ensures, Ensures-ok, Ensures->>=,
}
use ai_trading_platform.Execution.Models.{
  InstrumentProfile, ExecutionEvent, total_fee, Position, Trade, Account, validate_units,
  realized_pnl, paid_fees,
}
use ai_trading_platform.Execution.Accounting.{
  Step, check_fill, find_position, find_trade, replace_trade, opened_trade, open_step, add_step,
  reduce_step, open_position, has_funds, fill_step, finish_fill, apply_fill, same_direction,
  side_direction,
}
use ai_trading_platform.Execution.Books.{
  IsDistinct, find_trade-id, find_trade-replace_trade, IsDistinct-replace_trade, replace_trade-sums,
  append_trade-sums, find_trade-append, IsDistinct-append, All-put_position, All-map,
}

-- A position names a trade of the account, and keeps no basis once it is closed.
abbrev pub IsKept : List Trade → Position → Type 0
IsKept ts p =
    (is_some (find_trade p.position_trade ts) ≡ true) × (p.held ≡ 0 → p.remaining_cost_basis ≡ 0)

-- Cash plus the fees paid is the initial balance plus the profit realized.
pub record IsBook (a : Account) : Type 0 where
  pub distinct : IsDistinct a.trades
  pub kept : All (IsKept a.trades) a.positions
  pub balanced :
      a.cash_balance +ℤ pos (paid_fees a.trades) ≡ pos a.initial_balance +ℤ realized_pnl a.trades

-- What the two branches of `apply_fill` hand to its last lines.
record IsStep (a : Account) (s : Step) : Type 0 where
  old : Trade
  found : find_trade s.trade.trade_id s.step_trades ≡ some old
  profit : s.trade.gross_pnl ≡ old.gross_pnl +ℤ s.gross
  fees : s.trade.total_fees ≡ old.total_fees
  trades_distinct : IsDistinct s.step_trades
  same_profit : realized_pnl s.step_trades ≡ realized_pnl a.trades
  same_fees : paid_fees s.step_trades ≡ paid_fees a.trades
  others : All (IsKept s.step_trades) a.positions
  named : s.position.position_trade ≡ s.trade.trade_id
  flat : s.position.held ≡ 0 → s.position.remaining_cost_basis ≡ 0

IsKept-replace_trade :
    (n : Trade) (ts : List Trade) (p : Position) → IsKept ts p → IsKept (replace_trade n ts) p
IsKept-replace_trade n ts p k = (find_trade-replace_trade p.position_trade n ts ∙ k.0, k.1)

IsKept-append : (n : Trade) (ts : List Trade) (p : Position) → IsKept ts p → IsKept (ts ++ n ∷ []) p
IsKept-append n ts p k = (ground (arith, k.0, find_trade-append p.position_trade n ts), k.1)

finish_fill-IsBook :
    (a : Account) (e : ExecutionEvent) (s : Step)
    → IsBook a
    → IsStep a s
    → IsBook (finish_fill a e s)
unfolding finish_fill
finish_fill-IsBook a e s b i =
    let trade : Trade = record s.trade { total_fees = s.trade.total_fees + total_fee e } in
    let sums = replace_trade-sums trade i.old s.step_trades i.trades_distinct i.found in
    record {
      distinct = IsDistinct-replace_trade trade s.step_trades i.trades_distinct;
      kept =
          All-put_position (IsKept (replace_trade trade s.step_trades)) s.position a.positions
            (
              ground (
                arith,
                i.named,
                i.found,
                find_trade-replace_trade s.position.position_trade trade s.step_trades,
              ),
              i.flat,
            )
            (All-map _ _ a.positions (IsKept-replace_trade trade s.step_trades) i.others);
      balanced = omega (
        amounts,
        eq_parts _ _ sums.0,
        sums.1,
        eq_parts _ _ i.profit,
        i.fees,
        eq_parts _ _ i.same_profit,
        i.same_fees,
        eq_parts _ _ b.balanced,
      );
    }

open_step-IsStep :
    (a : Account) (e : ExecutionEvent) (p : InstrumentProfile) (plan : Option ℕ)
    → IsBook a
    → find_trade e.event_id a.trades ≡ none
    → ltb 0 e.quantity ≡ true
    → IsStep a (open_step a e p plan)
open_step-IsStep a e p plan b fresh positive =
    let n = opened_trade e plan in
    let sums = append_trade-sums n a.trades in
    record {
      old = n;
      found = ground (arith, fresh, find_trade-append e.event_id n a.trades);
      profit = omega amounts;
      fees = refl;
      trades_distinct = IsDistinct-append n a.trades fresh b.distinct;
      same_profit = omega (amounts, eq_parts _ _ sums.0);
      same_fees = omega (arith, sums.1);
      others = All-map _ _ a.positions (IsKept-append n a.trades) b.kept;
      named = refl;
      flat = λ h. absurd (ground (arith, h, positive));
    }

-- A trade that the position names, with another profit.
held_step-IsStep :
    (a : Account) (current : Position) (old : Trade) (s : Step)
    → IsBook a
    → find_trade current.position_trade a.trades ≡ some old
    → s.trade.trade_id ≡ old.trade_id
    → s.trade.gross_pnl ≡ old.gross_pnl +ℤ s.gross
    → s.trade.total_fees ≡ old.total_fees
    → s.step_trades ≡ a.trades
    → s.position.position_trade ≡ current.position_trade
    → (s.position.held ≡ 0 → s.position.remaining_cost_basis ≡ 0)
    → IsStep a s
held_step-IsStep a current old s b found same profit fees trades named flat =
    let id = find_trade-id current.position_trade old a.trades found in
    record {
      old = old;
      found = cc;
      profit = profit;
      fees = fees;
      trades_distinct = rw trades b.distinct;
      same_profit = rw trades refl;
      same_fees = rw trades refl;
      others = rw trades b.kept;
      named = named ∙ sym (same ∙ id);
      flat = flat;
    }

add_step-IsStep :
    (a : Account) (e : ExecutionEvent) (p : InstrumentProfile) (current : Position)
    → IsBook a
    → ltb 0 e.quantity ≡ true
    → Ensures (IsStep a) (add_step a e p current)
unfolding add_step
add_step-IsStep a e p current b positive =
    elim (Bool-cases (current.position_instrument == p.reference)) [
      | inr changed ↦ rw changed tt
      | inl same ↦ elim (Option-cases (find_trade current.position_trade a.trades)) [
        | inl missing ↦ rw (same, missing) tt
        | inr (t, found) ↦
            rw (same, found)
              (held_step-IsStep a current t _ b found refl (omega amounts) refl refl refl
                (λ h. absurd (ground (arith, h, positive))))
      ]
    ]

-- A fill that does not close the position leaves some of it.
flat_after :
    (allocate : ℕ → ℕ → ℕ → ℕ) (current : Position) (quantity : ℕ)
    → ltb current.held quantity ≡ false
    → current.held - quantity ≡ 0
    → current.remaining_cost_basis
        - (if quantity == current.held
            then current.remaining_cost_basis
            else allocate current.remaining_cost_basis current.held quantity)
      ≡ 0
flat_after allocate current quantity enough h = ground arith

reduce_step-IsStep :
    (allocate : ℕ → ℕ → ℕ → ℕ) (a : Account) (e : ExecutionEvent) (current : Position)
    → IsBook a
    → Ensures (IsStep a) (reduce_step allocate a e current)
unfolding reduce_step
reduce_step-IsStep allocate a e current b =
    let allocated =
      if e.quantity == current.held
      then current.remaining_cost_basis
      else allocate current.remaining_cost_basis current.held e.quantity in
    elim (Bool-cases (ltb current.held e.quantity)) [
      | inl over ↦ rw over tt
      | inr enough ↦ elim (Option-cases (find_trade current.position_trade a.trades)) [
        | inl missing ↦ rw (enough, missing) tt
        | inr (t, found) ↦ elim (Bool-cases (ltb current.remaining_cost_basis allocated)) [
          | inl below ↦ rw (enough, found, below) tt
          | inr covered ↦
              rw (enough, found, covered)
                (held_step-IsStep a current t _ b found refl refl refl refl refl
                  (flat_after allocate current e.quantity enough))
        ]
      ]
    ]

fill_step-IsStep :
    (allocate : ℕ → ℕ → ℕ → ℕ) (a : Account) (e : ExecutionEvent) (p : InstrumentProfile)
    (plan : Option ℕ)
    → IsBook a
    → find_trade e.event_id a.trades ≡ none
    → ltb 0 e.quantity ≡ true
    → Ensures (IsStep a) (fill_step allocate a e p plan)
unfolding fill_step
fill_step-IsStep allocate a e p plan b fresh positive =
    elim (Option-cases (open_position (find_position e.event_symbol a.positions))) [
      | inl flat ↦ elim (Bool-cases (has_funds a e)) [
        | inl funds ↦ rw (fill_step, flat, funds) (open_step-IsStep a e p plan b fresh positive)
        | inr short ↦ rw (fill_step, flat, short) tt
      ]
      | inr (current, here) ↦
          elim (Bool-cases (same_direction current.direction (side_direction e.side))) [
            | inr against ↦
                rw (fill_step, here, against) (reduce_step-IsStep allocate a e current b)
            | inl along ↦ elim (Bool-cases (has_funds a e)) [
              | inl funds ↦
                  rw (fill_step, here, along, funds) (add_step-IsStep a e p current b positive)
              | inr short ↦ rw (fill_step, here, along, short) tt
            ]
          ]
    ]

-- The checks before a fill leave a positive quantity.
check_fill-positive :
    (a : Account) (e : ExecutionEvent) (p : InstrumentProfile)
    → check_fill a e p ≡ ok tt
    → ltb 0 e.quantity ≡ true
unfolding check_fill validate_units
check_fill-positive a e p h = ground (arith, h)

pub apply_fill-IsBook :
    (allocate : ℕ → ℕ → ℕ → ℕ) (a : Account) (e : ExecutionEvent) (p : InstrumentProfile)
    (plan : Option ℕ)
    → IsBook a
    → find_trade e.event_id a.trades ≡ none
    → Ensures IsBook (apply_fill allocate a e p plan)
unfolding apply_fill
apply_fill-IsBook allocate a e p plan b fresh =
    Ensures->>= IsBook (check_fill a e p) _ (λ u checked.
      Ensures->>= IsBook (fill_step allocate a e p plan) _ (λ s m. finish_fill-IsBook a e s b (
        Ensures-ok (IsStep a) (fill_step allocate a e p plan) s
          (fill_step-IsStep allocate a e p plan b fresh (check_fill-positive a e p checked)) m)))
