-- ===== src/Execution/Accounting.antt =====
-- `apply_fill` of backend/app/execution/accounting.py.
use ai_trading_platform.Prelude.{
  ℕ, ◌+◌, ◌-◌, ◌*◌, Bool, true, false, ◌&&◌, ◌||◌, not, Option, none, some, List, [], ◌∷◌, ◌++◌,
  ltb, leb, ◌==◌, ℤ, pos, ◌+ℤ◌, ◌-ℤ◌, ltb_ℤ, Result, ok, err, ◌>>=◌, ◌>>◌, raise_if, if◌then◌else◌,
}
use ai_trading_platform.Timeframe.{Datetime}
use ai_trading_platform.Execution.Models.{
  Side, buy, sell, Direction, long, short, ExecutionError, scope_mismatch, unordered_admission,
  unordered_fill, insufficient_balance, profile_changed, over_close, no_trade, negative_basis,
  InstrumentProfile, validate_units, ExecutionEvent, total_fee, Position, Trade, Account,
  available_balance,
}

abbrev pub same_direction : Direction → Direction → Bool
same_direction long long = true
same_direction short short = true
same_direction a b = false

abbrev pub side_direction : Side → Direction
side_direction buy = long
side_direction sell = short

abbrev pub is_before : Datetime → Option Datetime → Bool
is_before t none = false
is_before t (some u) = ltb t u

-- The checks before any arithmetic.
unfoldable pub check_fill :
    Account → ExecutionEvent → InstrumentProfile → Result ExecutionError (Unit {0})
check_fill a e p = do
  raise_if
      (not (
        (e.trading_account_id == a.account_id)
        && ((e.execution_source == a.account_source)
            && ((e.instrument_reference == p.reference) && (e.event_symbol == p.symbol)))))
      scope_mismatch
  validate_units p (some e.price) e.quantity
  raise_if
      (ltb e.filled_at a.created_at
        || (ltb e.received_at a.created_at || is_before e.received_at a.updated_at))
      unordered_admission
  raise_if (leb e.provenance.sequence a.last_sequence || is_before e.filled_at a.last_filled_at)
      unordered_fill

-- `next((p for p in positions if p.symbol == symbol), None)`
unfoldable pub find_position : ℕ → List Position → Option Position
find_position s [] = none
find_position s (p ∷ ps) = if p.position_symbol == s then some p else find_position s ps

-- `next(t for t in trades if t.trade_id == trade_id)`
unfoldable pub find_trade : ℕ → List Trade → Option Trade
find_trade i [] = none
find_trade i (t ∷ ts) = if t.trade_id == i then some t else find_trade i ts

-- `[trade if t.trade_id == trade.trade_id else t for t in trades]`
unfoldable pub replace_trade : Trade → List Trade → List Trade
replace_trade n [] = []
replace_trade n (t ∷ ts) = (if t.trade_id == n.trade_id then n else t) ∷ replace_trade n ts

-- `positions[index] = position`, or `positions.append(position)` where there is none of the symbol.
unfoldable pub put_position : Position → List Position → List Position
put_position n [] = n ∷ []
put_position n (p ∷ ps) =
    if p.position_symbol == n.position_symbol then n ∷ ps else p ∷ put_position n ps

-- The result of the two branches: the position, the trade, the trades, and the gross profit.
pub record Step : Type 0 where
  pub position : Position
  pub trade : Trade
  pub step_trades : List Trade
  pub gross : ℤ

abbrev pub notional : ExecutionEvent → ℕ
notional e = e.price * e.quantity

abbrev pub opened_trade : ExecutionEvent → Option ℕ → Trade
opened_trade e plan = record {
  trade_id = e.event_id;
  trade_symbol = e.event_symbol;
  trade_direction = side_direction e.side;
  opened_at = e.filled_at;
  closed_at = none;
  gross_pnl = pos 0;
  total_fees = 0;
  total_entry_notional = notional e;
  trade_plan = plan;
}

abbrev pub increased : ExecutionEvent → Position → Position
increased e p = record p {
  held = p.held + e.quantity;
  remaining_cost_basis = p.remaining_cost_basis + notional e;
}

abbrev pub opened_position : ExecutionEvent → InstrumentProfile → Position
opened_position e p = record {
  position_symbol = e.event_symbol;
  position_instrument = p.reference;
  direction = side_direction e.side;
  position_trade = e.event_id;
  held = 0;
  remaining_cost_basis = 0;
}

-- The fill opens a trade.
abbrev pub open_step : Account → ExecutionEvent → InstrumentProfile → Option ℕ → Step
open_step a e p plan = record {
  position = increased e (opened_position e p);
  trade = opened_trade e plan;
  step_trades = a.trades ++ opened_trade e plan ∷ [];
  gross = pos 0;
}

-- The fill adds to an open position.
unfoldable pub add_step :
    Account → ExecutionEvent → InstrumentProfile → Position → Result ExecutionError Step
add_step a e p current =
    if current.position_instrument == p.reference
    then elim (find_trade current.position_trade a.trades) [
      | none ↦ err no_trade
      | some t ↦ ok (record {
        position = increased e current;
        trade = record t { total_entry_notional = t.total_entry_notional + notional e };
        step_trades = a.trades;
        gross = pos 0;
      })
    ]
    else err profile_changed

abbrev pub gross_of : Direction → ℕ → ℕ → ℤ
gross_of long proceeds allocated = pos proceeds -ℤ pos allocated
gross_of short proceeds allocated = pos allocated -ℤ pos proceeds

abbrev pub closing_time : Bool → Datetime → Option Datetime
closing_time closed t = if closed then some t else none

-- The fill reduces a position. `allocate basis quantity part` is the part of the basis, which the code
-- computes by its rounded division; a basis below zero fails the bound of the position's field.
unfoldable pub reduce_step :
    (allocate : ℕ → ℕ → ℕ → ℕ) → Account → ExecutionEvent → Position → Result ExecutionError Step
reduce_step allocate a e current =
    let closed = e.quantity == current.held in
    let allocated =
      if closed
      then current.remaining_cost_basis
      else allocate current.remaining_cost_basis current.held e.quantity in
    let gross = gross_of current.direction (notional e) allocated in
    if ltb current.held e.quantity
    then err over_close
    else elim (find_trade current.position_trade a.trades) [
      | none ↦ err no_trade
      | some t ↦
          if ltb current.remaining_cost_basis allocated
          then err negative_basis
          else ok (record {
            position = record current {
              held = current.held - e.quantity;
              remaining_cost_basis = current.remaining_cost_basis - allocated;
            };
            trade = record t {
              gross_pnl = t.gross_pnl +ℤ gross;
              closed_at = closing_time closed e.filled_at;
            };
            step_trades = a.trades;
            gross = gross;
          })
    ]

-- An open position of the event's symbol: one of quantity 0 counts as none.
unfoldable pub open_position : Option Position → Option Position
open_position none = none
open_position (some p) = if p.held == 0 then none else some p

abbrev pub has_funds : Account → ExecutionEvent → Bool
has_funds a e = not (ltb_ℤ (available_balance a) (pos (notional e + total_fee e)))

unfoldable pub fill_step :
    (allocate : ℕ → ℕ → ℕ → ℕ)
    → Account
    → ExecutionEvent
    → InstrumentProfile
    → Option ℕ
    → Result ExecutionError Step
fill_step allocate a e p plan = elim (open_position (find_position e.event_symbol a.positions)) [
  | none ↦ if has_funds a e then ok (open_step a e p plan) else err insufficient_balance
  | some current ↦
      if same_direction current.direction (side_direction e.side)
      then (if has_funds a e then add_step a e p current else err insufficient_balance)
      else reduce_step allocate a e current
]

-- The last lines of `apply_fill`.
unfoldable pub finish_fill : Account → ExecutionEvent → Step → Account
finish_fill a e s =
    let fees = total_fee e in
    let trade : Trade = record s.trade { total_fees = s.trade.total_fees + fees } in
    record a {
      positions = put_position s.position a.positions;
      trades = replace_trade trade s.step_trades;
      cash_balance = a.cash_balance +ℤ (s.gross -ℤ pos fees);
      last_sequence = e.provenance.sequence;
      last_filled_at = some e.filled_at;
      updated_at = some e.received_at;
    }

unfoldable pub apply_fill :
    (allocate : ℕ → ℕ → ℕ → ℕ)
    → Account
    → ExecutionEvent
    → InstrumentProfile
    → Option ℕ
    → Result ExecutionError Account
apply_fill allocate a e p plan =
    check_fill a e p >> (fill_step allocate a e p plan >>= λ s. ok (finish_fill a e s))
