-- ===== src/Lifecycle/Events.antt =====
-- What a pass of the replay of backend/app/engines/signal/lifecycle.py works with: the variables of
-- the loop, the events that it appends, the checks of its inputs, and the touches of the levels.
use ai_trading_platform.Prelude.{
  ◌+◌, Bool, false, Option, none, some, List, [], ◌∷◌, ◌++◌, ltb, leb, ◌==◌, if◌then◌else◌, Result,
  ok, err, ◌>>◌, raise_if,
}
use ai_trading_platform.Timeframe.{Datetime, Timedelta}
use ai_trading_platform.Candle.{Price, Candle}
use ai_trading_platform.Signal.{is_long}
use ai_trading_platform.Lifecycle.Schema.{
  Status, active, tp_hit, EventType, ReasonCode, LifecycleError, not_ascending, timeframe_gap,
  invalidation_predates_signal, Candidate, StructuralInvalidation, Event,
}

pub record EntryEvidence : Type 0 where
  pub executed : Bool
  pub executed_at : Option Datetime
  pub executed_entry_price : Option Price
  pub source_bar_timestamp : Datetime

abbrev pub EntryResolver : Type 0
EntryResolver = Candidate → Candle → Option Candle → Datetime → Result LifecycleError EntryEvidence

-- the local variables of the loop
pub record Run : Type 0 where
  pub status : Status
  pub activated_at : Option Datetime
  pub terminal_at : Option Datetime
  pub last_evaluated_at : Datetime
  pub events : List Event

abbrev pub append_event : Run → Event → Run
append_event s e = record s { events = s.events ++ e ∷ [] }

-- `_validate_inputs`
unfoldable pub validate_candles : Timedelta → List Candle → Result LifecycleError (Unit {0})
validate_candles duration (a ∷ b ∷ cs) =
    if leb b.timestamp a.timestamp
    then err not_ascending
    else if b.timestamp == (a.timestamp + duration)
    then validate_candles duration (b ∷ cs)
    else err timeframe_gap
validate_candles duration cs = ok tt

abbrev pub predates : Candidate → Option StructuralInvalidation → Bool
predates signal none = false
predates signal (some i) = ltb i.confirmed_at signal.created_at

unfoldable pub validate_inputs :
    Candidate
    → List Candle
    → Timedelta
    → Option StructuralInvalidation
    → Result LifecycleError (Unit {0})
validate_inputs signal candles duration invalidation = do
  validate_candles duration candles
  raise_if (predates signal invalidation) invalidation_predates_signal

unfoldable pub take_profit_touched : Candidate → Candle → Bool
take_profit_touched signal bar =
    if is_long signal.direction
    then leb signal.take_profit bar.high
    else leb bar.low signal.take_profit

unfoldable pub stop_loss_touched : Candidate → Candle → Bool
stop_loss_touched signal bar =
    if is_long signal.direction then leb bar.low signal.stop_loss else leb signal.stop_loss bar.high

-- `_exit_event`; it is called with the statuses `tp_hit` and `sl_hit`
abbrev pub exit_event : Status → Candle → Datetime → Price → ReasonCode → Event
exit_event status bar occurred_at price reason = record {
  event_type = elim status [ tp_hit ↦ EventType.take_profit_hit | _ ↦ EventType.stop_loss_hit ];
  from_status = some active;
  to_status = status;
  occurred_at = occurred_at;
  bar_timestamp = some bar.timestamp;
  price = some price;
  reason_code = reason;
}

-- `_invalidation_event`
abbrev pub invalidation_event : StructuralInvalidation → Status → Option Datetime → Event
invalidation_event invalidation from_status bar_timestamp = record {
  event_type = EventType.cancelled;
  from_status = some from_status;
  to_status = Status.cancelled;
  occurred_at = invalidation.confirmed_at;
  bar_timestamp = bar_timestamp;
  price = none;
  reason_code = ReasonCode.structural_invalidation_before_entry;
}

abbrev pub ambiguous_event : Status → Candle → Datetime → ReasonCode → Event
ambiguous_event from_status bar bar_close reason = record {
  event_type = EventType.ambiguous;
  from_status = some from_status;
  to_status = Status.ambiguous;
  occurred_at = bar_close;
  bar_timestamp = some bar.timestamp;
  price = none;
  reason_code = reason;
}
