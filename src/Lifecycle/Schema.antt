-- ===== src/Lifecycle/Schema.antt =====
-- The records of backend/app/schemas/signal_lifecycle.py and their validators. The text `detail` of
-- an event, which repeats its reason code for people, is left out.
use ai_trading_platform.Prelude.{
  Bool, true, false, ◌&&◌, not, Option, String, List, ltb, leb, is_some, Result, ok, raise_if, ◌>>◌,
}
use ai_trading_platform.Timeframe.{Datetime}
use ai_trading_platform.Candle.{Price}
use ai_trading_platform.Signal.{SignalDecision, is_no_trade, EntryZone, levels_ordered}

pub data Status : Type 0 where
  waiting active tp_hit sl_hit cancelled ambiguous : Status

pub data EventType : Type 0 where
  created activated take_profit_hit stop_loss_hit cancelled ambiguous : EventType

pub data ReasonCode : Type 0 where
  signal_created entry_zone_touched entry_execution_confirmed : ReasonCode
  take_profit_touched stop_loss_touched tp_and_sl_touched_same_candle : ReasonCode
  entry_and_exit_order_unknown structural_invalidation_before_entry : ReasonCode
  entry_and_invalidation_order_unknown conservative_stop_first : ReasonCode

pub data SameCandlePolicy : Type 0 where
  ambiguous conservative_stop_first : SameCandlePolicy

pub record LifecycleConfig : Type 0 where
  pub same_candle_policy : SameCandlePolicy

-- What the replay raises: `SignalLifecycleInputError`, a failed assertion, a validation error of a
-- record, or what the entry resolver raises.
pub data LifecycleError : Type 0 where
  not_ascending timeframe_gap invalidation_predates_signal : LifecycleError
  missing_execution_evidence price_not_positive resolver_failed : LifecycleError
  terminal_at_disagrees activated_at_missing activated_at_unexpected : LifecycleError
  no_trade_candidate reference_outside_zone levels_invalid : LifecycleError

pub record Candidate : Type 0 where
  pub signal_id : String
  pub direction : SignalDecision
  pub entry_zone : EntryZone
  pub entry_reference : Price
  pub take_profit : Price
  pub stop_loss : Price
  pub created_at : Datetime

-- The bounds `gt=0`, then `validate_trade_levels`.
unfoldable pub new_candidate : Candidate → Result LifecycleError Candidate
new_candidate c = do
  raise_if (not (ltb 0 c.entry_reference && (ltb 0 c.take_profit && ltb 0 c.stop_loss)))
      price_not_positive
  raise_if (is_no_trade c.direction) no_trade_candidate
  raise_if (not (leb c.entry_zone.low c.entry_reference && leb c.entry_reference c.entry_zone.high))
      reference_outside_zone
  raise_if (not (levels_ordered c.direction c.entry_zone c.take_profit c.stop_loss)) levels_invalid
  ok c

pub record StructuralInvalidation : Type 0 where
  pub confirmed_at : Datetime
  pub source_structure : String
  pub reason : String

pub record Event : Type 0 where
  pub event_type : EventType
  pub from_status : Option Status
  pub to_status : Status
  pub occurred_at : Datetime
  pub bar_timestamp : Option Datetime
  pub price : Option Price
  pub reason_code : ReasonCode

pub record LifecycleResult : Type 0 where
  pub signal_id : String
  pub status : Status
  pub created_at : Datetime
  pub activated_at : Option Datetime
  pub terminal_at : Option Datetime
  pub last_evaluated_at : Datetime
  pub events : List Event

-- `TERMINAL_STATUSES`
abbrev pub is_terminal : Status → Bool
is_terminal waiting = false
is_terminal active = false
is_terminal s = true

abbrev pub is_waiting : Status → Bool
is_waiting waiting = true
is_waiting s = false

abbrev pub needs_activation : Status → Bool
needs_activation active = true
needs_activation tp_hit = true
needs_activation sl_hit = true
needs_activation s = false

abbrev pub forbids_activation : Status → Bool
forbids_activation waiting = true
forbids_activation Status.cancelled = true
forbids_activation s = false

abbrev same : Bool → Bool → Bool
same true b = b
same false b = not b

-- `validate_status_timestamps`
unfoldable pub new_result : LifecycleResult → Result LifecycleError LifecycleResult
new_result r = do
  raise_if (not (same (is_terminal r.status) (is_some r.terminal_at))) terminal_at_disagrees
  raise_if (needs_activation r.status && not (is_some r.activated_at)) activated_at_missing
  raise_if (forbids_activation r.status && is_some r.activated_at) activated_at_unexpected
  ok r
