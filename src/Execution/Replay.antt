-- ===== src/Execution/Replay.antt =====
-- `get_account` of backend/app/execution/gateway.py: the account as of a time, from the fills received
-- by then.
use ai_trading_platform.Prelude.{
  ℕ, none, some, List, [], ◌∷◌, ltb, leb, pos, Result, ok, err, ◌>>=◌, ◌>>◌, raise_if,
  if◌then◌else◌,
}
use ai_trading_platform.Timeframe.{Datetime}
use ai_trading_platform.Normalize.Defs.{sorted}
use ai_trading_platform.Execution.Models.{
  ExecutionError, unknown_order, not_yet_visible, ExecutionEvent, Account,
}
use ai_trading_platform.Execution.Accounting.{apply_fill}
use ai_trading_platform.Execution.Ledger.{OrderRow, Ledger, find_order}

-- The account before its first fill.
abbrev pub initial_account : Account → Account
initial_account current = record current {
  cash_balance = pos current.initial_balance;
  updated_at = some current.created_at;
  last_sequence = 0;
  last_filled_at = none;
  positions = [];
  trades = [];
}

unfoldable pub received_by : Datetime → List ExecutionEvent → List ExecutionEvent
received_by cutoff [] = []
received_by cutoff (f ∷ fs) =
    if leb f.received_at cutoff then f ∷ received_by cutoff fs else received_by cutoff fs

abbrev pub sequence_of : ExecutionEvent → ℕ
sequence_of e = e.provenance.sequence

abbrev pub filled_at_of : ExecutionEvent → Datetime
filled_at_of e = e.filled_at

-- `order_by(filled_at, execution_sequence)`
abbrev pub fill_rows : Datetime → List ExecutionEvent → List ExecutionEvent
fill_rows cutoff fills = sorted filled_at_of (sorted sequence_of (received_by cutoff fills))

module _ (allocate : ℕ → ℕ → ℕ → ℕ) where
  -- One turn of the loop.
  unfoldable pub replay_fill :
      List OrderRow → Account → ExecutionEvent → Result ExecutionError Account
  replay_fill orders state f = elim (find_order f.internal_order_id orders) [
    | none ↦ err unknown_order
    | some r ↦ apply_fill allocate state f r.frozen_profile r.order.intent.plan_reference
  ]

  unfoldable pub replay_fills :
      List OrderRow → Account → List ExecutionEvent → Result ExecutionError Account
  replay_fills orders state [] = ok state
  replay_fills orders state (f ∷ fs) =
      replay_fill orders state f >>= λ next. replay_fills orders next fs

  unfoldable pub get_account : Datetime → Ledger → Result ExecutionError Account
  get_account cutoff l = do
    raise_if (ltb cutoff l.account.created_at) not_yet_visible
    replay_fills l.orders (initial_account l.account) (fill_rows cutoff l.fills)
