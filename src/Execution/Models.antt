-- ===== src/Execution/Models.antt =====
-- backend/app/execution/models.py. Ids and references are numbers. Fields with one value, such as the
-- settlement currency, are left out.
use ai_trading_platform.Prelude.{
  ℕ, zero, suc, ◌+◌, ◌%◌, Bool, true, false, ◌&&◌, not, Option, none, some, List, [], ◌∷◌, ltb, leb,
  ◌==◌, ℤ, pos, ◌+ℤ◌, ◌-ℤ◌, Result, err, raise_if, is_some, if◌then◌else◌, length, ◌>>◌,
}
use ai_trading_platform.Timeframe.{Datetime}

pub data Side : Type 0 where
  buy sell : Side

pub data OrderKind : Type 0 where
  market limit : OrderKind

pub data SubmissionStatus : Type 0 where
  acknowledged rejected unknown : SubmissionStatus

-- The status of a `Cancellation`.
pub data CancelStatus : Type 0 where
  cancelled cancel_rejected cancel_unknown : CancelStatus

pub data Direction : Type 0 where
  long short : Direction

-- The messages of the `ValueError`s of the execution package.
pub data ExecutionError : Type 0 where
  unsupported_precision below_minimum limit_price_mismatch fill_before_visible : ExecutionError
  scope_mismatch unordered_admission unordered_fill insufficient_balance : ExecutionError
  profile_changed over_close no_trade negative_basis : ExecutionError
  changed_economic_fill new_fill_not_allowed account_closed unknown_order : ExecutionError
  instrument_mismatch contract_mismatch stale_reduction stale_opening : ExecutionError
  command_changed invalid_policy_evidence duplicate_key order_not_found : ExecutionError
  unsupported_instrument not_yet_visible invalid_field missing_observation : ExecutionError
  stale_observation partial_observation unordered_observation assertion_failed : ExecutionError

-- The bounds on decimal places and significant digits are about how a number is written: `is_precise`
-- is true of the numbers within them.
pub record InstrumentProfile : Type 0 where
  pub reference : ℕ
  pub symbol : ℕ
  pub price_tick : ℕ
  pub quantity_step : ℕ
  pub minimum_quantity : ℕ
  pub is_precise : ℕ → Bool

abbrev pub is_multiple : ℕ → ℕ → Bool
is_multiple value zero = false
is_multiple value (suc step) = (value % suc step) == 0

-- One turn of the loop of `validate_units`.
abbrev pub is_unit : InstrumentProfile → ℕ → ℕ → Bool
is_unit p value step = ltb 0 value && (is_multiple value step && p.is_precise value)

abbrev pub is_price_unit : InstrumentProfile → Option ℕ → Bool
is_price_unit p none = true
is_price_unit p (some price) = is_unit p price p.price_tick

unfoldable pub validate_units : InstrumentProfile → Option ℕ → ℕ → Result ExecutionError (Unit {0})
validate_units p price quantity =
    if is_unit p quantity p.quantity_step && is_price_unit p price
    then raise_if (ltb quantity p.minimum_quantity) below_minimum
    else err unsupported_precision

pub record OrderIntent : Type 0 where
  pub command_id : ℕ
  pub intent_symbol : ℕ
  pub intent_side : Side
  pub kind : OrderKind
  pub intent_quantity : ℕ
  pub limit_price : Option ℕ
  pub plan_reference : Option ℕ

abbrev pub is_limit : OrderKind → Bool
is_limit limit = true
is_limit market = false

abbrev pub same_bool : Bool → Bool → Bool
same_bool true b = b
same_bool false b = not b

-- The bound on the quantity, and `check_limit`.
unfoldable pub valid_intent : OrderIntent → Bool
valid_intent i = ltb 0 i.intent_quantity && same_bool (is_limit i.kind) (is_some i.limit_price)

pub record Order : Type 0 where
  pub order_id : ℕ
  pub order_account : ℕ
  pub intent : OrderIntent
  pub order_instrument : ℕ
  pub accepted_at : Datetime
  pub submission_status : SubmissionStatus
  pub external_order_id : Option ℕ
  pub rejection_reason : Option ℕ
  pub reduce_only : Bool
  pub bound_trade_id : Option ℕ
  pub filled_quantity : ℕ
  pub cancelled_at : Option Datetime
  pub cancellation_status : Option CancelStatus
  pub last_observation_at : Option Datetime

pub record OrderSubmission : Type 0 where
  pub status : SubmissionStatus
  pub receipt_order_id : Option ℕ
  pub reason : Option ℕ

pub record Provenance : Type 0 where
  pub provider : ℕ
  pub adapter_version : ℕ
  pub sequence : ℕ
  pub execution_policy_version : Option ℕ
  pub observation_hash : Option ℕ

pub record ExecutionEvent : Type 0 where
  pub event_id : ℕ
  pub execution_source : ℕ
  pub trading_account_id : ℕ
  pub internal_order_id : ℕ
  pub event_external_order_id : ℕ
  pub external_fill_id : ℕ
  pub event_symbol : ℕ
  pub instrument_reference : ℕ
  pub side : Side
  pub price : ℕ
  pub quantity : ℕ
  pub fees : List ℕ
  pub filled_at : Datetime
  pub received_at : Datetime
  pub provenance : Provenance

-- The bounds of the fields, and `check_time`.
unfoldable pub validate_event : ExecutionEvent → Result ExecutionError (Unit {0})
validate_event e = do
  raise_if
      (not (
        ltb 0 e.price
        && (ltb 0 e.quantity
            && (ltb 0 e.provenance.sequence && (ltb 0 (length e.fees) && leb (length e.fees) 16)))))
      invalid_field
  raise_if (ltb e.received_at e.filled_at) fill_before_visible

abbrev pub sum : List ℕ → ℕ
sum [] = 0
sum (x ∷ xs) = x + sum xs

-- `total_fee`
abbrev pub total_fee : ExecutionEvent → ℕ
total_fee e = sum e.fees

pub record Position : Type 0 where
  pub position_symbol : ℕ
  pub position_instrument : ℕ
  pub direction : Direction
  pub position_trade : ℕ
  pub held : ℕ
  pub remaining_cost_basis : ℕ

pub record Trade : Type 0 where
  pub trade_id : ℕ
  pub trade_symbol : ℕ
  pub trade_direction : Direction
  pub opened_at : Datetime
  pub closed_at : Option Datetime
  pub gross_pnl : ℤ
  pub total_fees : ℕ
  pub total_entry_notional : ℕ
  pub trade_plan : Option ℕ

pub record Account : Type 0 where
  pub account_id : ℕ
  pub account_source : ℕ
  pub initial_balance : ℕ
  pub cash_balance : ℤ
  pub created_at : Datetime
  pub updated_at : Option Datetime
  pub last_sequence : ℕ
  pub last_filled_at : Option Datetime
  pub positions : List Position
  pub trades : List Trade

-- `reserved_collateral`
unfoldable pub reserved_collateral : List Position → ℕ
reserved_collateral [] = 0
reserved_collateral (p ∷ ps) = p.remaining_cost_basis + reserved_collateral ps

-- `available_balance`
abbrev pub available_balance : Account → ℤ
available_balance a = a.cash_balance -ℤ pos (reserved_collateral a.positions)

-- `realized_pnl`
unfoldable pub realized_pnl : List Trade → ℤ
realized_pnl [] = pos 0
realized_pnl (t ∷ ts) = t.gross_pnl +ℤ realized_pnl ts

-- The sum of the fees of the trades.
unfoldable pub paid_fees : List Trade → ℕ
paid_fees [] = 0
paid_fees (t ∷ ts) = t.total_fees + paid_fees ts
