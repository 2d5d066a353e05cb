-- ===== src/Execution/Orders.antt =====
-- The orders of backend/app/execution/gateway.py: submission in two transactions round the call of the
-- provider, reconciliation, cancellation, the end of an order by a failed fill, and the account's row.
-- What the provider answers is an argument, `none` where it raises.
use ai_trading_platform.Prelude.{
  ℕ, Bool, true, false, ◌&&◌, not, Option, none, some, List, [], ◌∷◌, ◌++◌, ltb, ◌==◌, pos, Result,
  ok, err, ◌>>=◌, ◌>>◌, raise_if, is_some, if◌then◌else◌,
}
use ai_trading_platform.Timeframe.{Datetime}
use ai_trading_platform.Execution.Models.{
  ExecutionError, account_closed, invalid_field, order_not_found, command_changed, duplicate_key,
  limit_price_mismatch, InstrumentProfile, validate_units, OrderIntent, valid_intent, Order,
  OrderSubmission, SubmissionStatus, acknowledged, rejected, unknown, CancelStatus, cancelled,
  cancel_unknown, Position,
}
use ai_trading_platform.Execution.Accounting.{same_direction, side_direction}
use ai_trading_platform.Execution.Ledger.{OrderRow, Ledger, find_order, put_order, held_of}

-- `create_account`, with a positive balance.
unfoldable pub create_account :
    (account_id source balance : ℕ) → Datetime → Result ExecutionError Ledger
create_account account_id source balance now =
    if ltb 0 balance
    then ok (record {
      account = record {
        account_id = account_id;
        account_source = source;
        initial_balance = balance;
        cash_balance = pos balance;
        created_at = now;
        updated_at = some now;
        last_sequence = 0;
        last_filled_at = none;
        positions = [];
        trades = [];
      };
      orders = [];
      fills = [];
    })
    else err invalid_field

-- The order of a command, which is unique in the account.
unfoldable pub find_command : ℕ → List OrderRow → Option OrderRow
find_command c [] = none
find_command c (r ∷ rs) = if r.order.intent.command_id == c then some r else find_command c rs

-- The trade that a reducing order is bound to.
abbrev pub reduces : OrderIntent → Option Position → Bool
reduces i none = false
reduces i (some p) = not (same_direction p.direction (side_direction i.intent_side))

abbrev pub exceeds : OrderIntent → Option Position → Bool
exceeds i none = false
exceeds i (some p) = ltb p.held i.intent_quantity

abbrev pub trade_of : Option Position → Option ℕ
trade_of none = none
trade_of (some p) = some p.position_trade

-- `over_close` stands for the text of the reason.
unfoldable pub new_order :
    (order_id over_close : ℕ)
    → Datetime
    → OrderIntent
    → InstrumentProfile
    → ℕ
    → Option Position
    → Order
new_order order_id over_close now i profile account_id position =
    let reduce_only = reduces i position in
    let is_rejected = reduce_only && exceeds i position in
    record {
      order_id = order_id;
      order_account = account_id;
      intent = i;
      order_instrument = profile.reference;
      accepted_at = now;
      submission_status = if is_rejected then rejected else unknown;
      external_order_id = none;
      rejection_reason = if is_rejected then some over_close else none;
      reduce_only = reduce_only;
      bound_trade_id = if reduce_only then trade_of position else none;
      filled_quantity = 0;
      cancelled_at = none;
      cancellation_status = none;
      last_observation_at = none;
    }

-- `intent_hash` is the digest of the text of an intent.
module _ (intent_hash : OrderIntent → ℕ) where
  -- The transaction before the provider is called. The order id is fresh unless it is taken.
  unfoldable pub submit_order :
      (active : Bool) (order_id over_close : ℕ)
      → Datetime
      → OrderIntent
      → InstrumentProfile
      → Ledger
      → Result ExecutionError (Order × Ledger)
  submit_order active order_id over_close now i profile l = do
    raise_if (not (valid_intent i)) limit_price_mismatch
    validate_units profile i.limit_price i.intent_quantity
    elim (find_command i.command_id l.orders) [
      | some prior ↦
          if intent_hash prior.order.intent == intent_hash i
          then ok (prior.order, l)
          else err command_changed
      | none ↦ do
        raise_if (not active) account_closed
        let order =
              new_order order_id over_close now i profile l.account.account_id
                (held_of i.intent_symbol l.account.positions) in
            if is_some (find_order order_id l.orders)
            then err duplicate_key
            else ok (
              order,
              record l {
                orders = l.orders ++ record { order = order; frozen_profile = profile } ∷ [];
              },
            )
    ]

-- An answer that cannot be used leaves the order unknown.
unfoldable pub usable : Option OrderSubmission → (unavailable invalid : ℕ) → OrderSubmission
usable none unavailable invalid = record {
  status = unknown;
  receipt_order_id = none;
  reason = some unavailable;
}
usable (some s) unavailable invalid = elim s.status [
  | acknowledged ↦
      if is_some s.receipt_order_id
      then s
      else record { status = unknown; receipt_order_id = none; reason = some invalid }
  | rejected ↦ s
  | unknown ↦ s
]

abbrev pub is_unknown : SubmissionStatus → Bool
is_unknown unknown = true
is_unknown acknowledged = false
is_unknown rejected = false

-- `_save_submission` on the order's row.
unfoldable pub received : OrderSubmission → Order → Order
received s o =
    if is_unknown o.submission_status
    then record o {
      submission_status = s.status;
      external_order_id = s.receipt_order_id;
      rejection_reason = s.reason;
    }
    else o

-- A change of one order's state.
unfoldable pub change_order :
    (Order → Result ExecutionError Order) → ℕ → Ledger → Result ExecutionError (Order × Ledger)
change_order change order_id l = elim (find_order order_id l.orders) [
  | none ↦ err order_not_found
  | some r ↦ change r.order >>= λ o. ok (o, record l { orders = put_order o l.orders })
]

unfoldable pub save_submission :
    Option OrderSubmission
    → (unavailable invalid order_id : ℕ) → Ledger
    → Result ExecutionError (Order × Ledger)
save_submission receipt unavailable invalid =
    change_order (λ o. ok (received (usable receipt unavailable invalid) o))

abbrev pub answered : Option CancelStatus → CancelStatus
answered none = cancel_unknown
answered (some s) = s

abbrev pub is_cancelled : CancelStatus → Bool
is_cancelled cancelled = true
is_cancelled s = false

abbrev pub first_of : Option Datetime → Datetime → Option Datetime
first_of none now = some now
first_of (some t) now = some t

-- The last transaction of `cancel_order`.
unfoldable pub cancellation : CancelStatus → Datetime → Order → Order
cancellation s now o =
    let cancelled_at =
      if is_cancelled s && ltb o.filled_quantity o.intent.intent_quantity
      then first_of o.cancelled_at now
      else o.cancelled_at in
    record o { cancellation_status = some s; cancelled_at = cancelled_at }

-- The transaction before the provider is called: `some order` where there is nothing to cancel.
unfoldable pub begin_cancel : (active : Bool) → ℕ → Ledger → Result ExecutionError (Option Order)
begin_cancel active order_id l = elim (find_order order_id l.orders) [
  | none ↦ err order_not_found
  | some r ↦
      if is_some r.order.cancelled_at
      then ok (some r.order)
      else (raise_if (not active) account_closed >> ok none)
]

unfoldable pub end_cancel :
    (active : Bool)
    → Option CancelStatus
    → Datetime
    → ℕ
    → Ledger
    → Result ExecutionError (Order × Ledger)
end_cancel active answer now =
    change_order
      (λ o. raise_if (not active) account_closed >> ok (cancellation (answered answer) now o))

-- `observe`: a fill that the ledger refuses rejects the order.
abbrev pub refused : ℕ → Order → Order
refused reason o = record o { submission_status = rejected; rejection_reason = some reason }

-- `observe`: the order has seen a candle.
abbrev pub observed : Datetime → Order → Order
observed t o = record o { last_observation_at = some t }
