-- ===== src/Execution/Ledger.antt =====
-- The rows of one account in backend/app/execution/records.py and `admit` of
-- backend/app/execution/repository.py. The copies of a row's columns are left out, and with them the
-- checks that a copy is not corrupt.
use ai_trading_platform.Prelude.{
  ℕ, ◌+◌, Bool, true, false, ◌&&◌, ◌||◌, not, Option, none, some, List, [], ◌∷◌, ◌++◌, ltb, leb,
  ◌==◌, Result, ok, err, ◌>>=◌, ◌>>◌, raise_if, if◌then◌else◌,
}
use ai_trading_platform.Execution.Models.{
  Side, buy, sell, ExecutionError, scope_mismatch, changed_economic_fill, new_fill_not_allowed,
  account_closed, unknown_order, instrument_mismatch, contract_mismatch, stale_reduction,
  stale_opening, duplicate_key, InstrumentProfile, Order, ExecutionEvent, validate_event, Position,
  Account,
}
use ai_trading_platform.Execution.Accounting.{same_direction, side_direction, apply_fill}

-- An order with the profile that was frozen when it was submitted.
pub record OrderRow : Type 0 where
  pub order : Order
  pub frozen_profile : InstrumentProfile

-- The account, its orders in the order of their commands, and its fills in the order of admission.
pub record Ledger : Type 0 where
  pub account : Account
  pub orders : List OrderRow
  pub fills : List ExecutionEvent

unfoldable pub find_order : ℕ → List OrderRow → Option OrderRow
find_order i [] = none
find_order i (r ∷ rs) = if r.order.order_id == i then some r else find_order i rs

-- `row.state = document(order)`
unfoldable pub put_order : Order → List OrderRow → List OrderRow
put_order o [] = []
put_order o (r ∷ rs) =
    if r.order.order_id == o.order_id then record r { order = o } ∷ rs else r ∷ put_order o rs

-- The fill with an external id, which is unique in the ledger.
unfoldable pub find_fill : ℕ → List ExecutionEvent → Option ExecutionEvent
find_fill i [] = none
find_fill i (f ∷ fs) = if f.external_fill_id == i then some f else find_fill i fs

-- The keys of a fill that are unique in the table: its event id and its sequence.
unfoldable pub has_fill_key : ExecutionEvent → List ExecutionEvent → Bool
has_fill_key e [] = false
has_fill_key e (f ∷ fs) =
    (f.event_id == e.event_id)
    || ((f.provenance.sequence == e.provenance.sequence) || has_fill_key e fs)

-- The open position of a symbol: `p.symbol == symbol and p.quantity`.
unfoldable pub held_of : ℕ → List Position → Option Position
held_of s [] = none
held_of s (p ∷ ps) = if (p.position_symbol == s) && ltb 0 p.held then some p else held_of s ps

abbrev pub same_option : Option ℕ → Option ℕ → Bool
same_option none none = true
same_option (some a) (some b) = a == b
same_option a b = false

abbrev pub same_side : Side → Side → Bool
same_side buy buy = true
same_side sell sell = true
same_side a b = false

-- The fill against the order that it names.
unfoldable pub matches_order : Order → ExecutionEvent → Bool
matches_order o e =
    same_option o.external_order_id (some e.event_external_order_id)
    && ((o.intent.intent_symbol == e.event_symbol)
        && ((o.order_instrument == e.instrument_reference)
            && (same_side o.intent.intent_side e.side
                && (ltb o.accepted_at e.filled_at
                    && leb (o.filled_quantity + e.quantity) o.intent.intent_quantity))))

abbrev pub may_reduce : Order → ExecutionEvent → Option Position → Bool
may_reduce o e none = false
may_reduce o e (some p) =
    same_option (some p.position_trade) o.bound_trade_id && leb e.quantity p.held

abbrev pub may_open : ExecutionEvent → Option Position → Bool
may_open e none = true
may_open e (some p) = same_direction p.direction (side_direction e.side)

-- The order still does to the position what it was accepted for.
unfoldable pub check_intention :
    Order → ExecutionEvent → Option Position → Result ExecutionError (Unit {0})
check_intention o e p =
    if o.reduce_only
    then raise_if (not (may_reduce o e p)) stale_reduction
    else raise_if (not (may_open e p)) stale_opening

abbrev pub filled_order : Order → ExecutionEvent → Order
filled_order o e = record o { filled_quantity = o.filled_quantity + e.quantity }

-- The rows after a fill is applied.
unfoldable pub record_fill : Ledger → ExecutionEvent → Order → Account → Ledger
record_fill l e o updated = record {
  account = updated;
  orders = put_order (filled_order o e) l.orders;
  fills = l.fills ++ e ∷ [];
}

-- `economic_content_hash`: the event id and the time of receipt are left out. `content_hash` is the
-- digest of a library on the canonical text.
unfoldable pub economic_content_hash : (content_hash : ExecutionEvent → ℕ) → ExecutionEvent → ℕ
economic_content_hash content_hash e = content_hash (record e { event_id = 0; received_at = 0 })

module _ (allocate : ℕ → ℕ → ℕ → ℕ) (content_hash : ExecutionEvent → ℕ) where  -- The fill is new: from the test of the account on.
  unfoldable pub admit_new :
      (active allow_new_fill : Bool)
      → ExecutionEvent
      → InstrumentProfile
      → Ledger
      → Result ExecutionError (ExecutionEvent × Ledger)
  admit_new active allow_new_fill e profile l = do
    raise_if (not active) account_closed
    raise_if (not allow_new_fill) new_fill_not_allowed
    elim (find_order e.internal_order_id l.orders) [
      | none ↦ err unknown_order
      | some r ↦ do
        raise_if (not (r.order.order_account == l.account.account_id)) unknown_order
        raise_if (not (profile.reference == r.frozen_profile.reference)) instrument_mismatch
        raise_if (not (matches_order r.order e)) contract_mismatch
        check_intention r.order e (held_of e.event_symbol l.account.positions)
        apply_fill allocate l.account e r.frozen_profile r.order.intent.plan_reference
            >>= λ updated.
                if has_fill_key e l.fills
                then err duplicate_key
                else ok (e, record_fill l e r.order updated)
    ]

  unfoldable pub admit :
      (active allow_new_fill : Bool)
      → ExecutionEvent
      → InstrumentProfile
      → Ledger
      → Result ExecutionError (ExecutionEvent × Ledger)
  admit active allow_new_fill e profile l = do
    validate_event e
    raise_if
        (not (
          (e.execution_source == l.account.account_source)
          && (e.trading_account_id == l.account.account_id)))
        scope_mismatch
    elim (find_fill e.external_fill_id l.fills) [
      | none ↦ admit_new active allow_new_fill e profile l
      | some original ↦
          if economic_content_hash content_hash original == economic_content_hash content_hash e
          then ok (original, l)
          else err changed_economic_fill
    ]
