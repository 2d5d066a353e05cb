-- ===== src/Lifecycle/Tests.antt =====
-- A long signal over three candles: it enters at an open inside the zone, and takes its profit.
use mathlib.Core.Path.{subst}
use ai_trading_platform.Prelude.{
  ℕ, ◌+◌, ◌≤◌, ◌≡◌, true, false, ◌&&◌, none, some, List, [], ◌∷◌, ◌++◌, leb, refl, arith, Result,
  ok, Any, if◌then◌else◌,
}
use ai_trading_platform.Timeframe.{one_minute, Datetime, minute, epoch}
use ai_trading_platform.Candle.{Candle}
use ai_trading_platform.Signal.{long}
use ai_trading_platform.Lifecycle.Schema.{
  Status, waiting, active, EventType, ReasonCode, tp_hit, SameCandlePolicy, LifecycleConfig,
  Candidate, LifecycleResult, Event, new_result, new_candidate, LifecycleError,
}
use ai_trading_platform.Lifecycle.Events.{
  EntryEvidence, EntryResolver, validate_candles, validate_inputs, take_profit_touched,
  stop_loss_touched,
}
use ai_trading_platform.Lifecycle.Replay.{
  start_run, resolve_exit, activate, enter, step_waiting, step_bar, replay_bars,
  replay_signal_lifecycle,
}
use ai_trading_platform.Lifecycle.Trace.{Trace}
use ai_trading_platform.Lifecycle.Outcome.{IsEvidence, IsResolver, replay_total, replay-Trace}
use ai_trading_platform.Lifecycle.Profit.{Pays, profit_needs_untouched_stop}
use ai_trading_platform.Lifecycle.Prefix.{replay_terminal_final}
use ai_trading_platform.Lifecycle.Timing.{Within, Ordered, IsPunctual}
use ai_trading_platform.Lifecycle.Instants.{replay_instants_in_order}

abbrev signal : Candidate
signal = record {
  signal_id = "s";
  direction = long;
  entry_zone = record { low = 100; high = 110 };
  entry_reference = 105;
  take_profit = 130;
  stop_loss = 90;
  created_at = epoch;
}

signal_valid : new_candidate signal ≡ ok signal
unfolding new_candidate
signal_valid = refl

abbrev candle : Datetime → ℕ → ℕ → ℕ → ℕ → Candle
candle t open_price high low close = record {
  timestamp = t;
  open_price = open_price;
  high = high;
  low = low;
  close = close;
  volume = 1;
}

abbrev candles : List Candle
candles =
    candle epoch 120 125 112 115
    ∷ candle (epoch + minute) 108 112 104 111
    ∷ candle (epoch + 120000000) 111 131 109 130
    ∷ []

abbrev crash : List Candle
crash = candle (epoch + 180000000) 130 131 50 60 ∷ []

-- Fills at the open where it lies in the zone.
abbrev evidence : Candidate → Candle → EntryEvidence
evidence s bar =
    if leb s.entry_zone.low bar.open_price && leb bar.open_price s.entry_zone.high
    then record {
      executed = true;
      executed_at = some bar.timestamp;
      executed_entry_price = some (bar.open_price + 1);
      source_bar_timestamp = bar.timestamp;
    }
    else record {
      executed = false;
      executed_at = none;
      executed_entry_price = none;
      source_bar_timestamp = bar.timestamp;
    }

abbrev fill_at_open : EntryResolver
fill_at_open s bar previous bar_close = ok (evidence s bar)

evidence-IsEvidence : (s : Candidate) (bar : Candle) → IsEvidence (evidence s bar)
evidence-IsEvidence s bar = record {
  at = λ h. (bar.timestamp, ground arith);
  price = λ h. (bar.open_price + 1, ground arith, omega arith);
}

fill_at_open-IsResolver : IsResolver fill_at_open
fill_at_open-IsResolver s bar previous bar_close = (evidence s bar, refl, evidence-IsEvidence s bar)

abbrev config : LifecycleConfig
config = record { same_candle_policy = SameCandlePolicy.ambiguous }

abbrev event : EventType → Status → Status → Datetime → Datetime → ℕ → ReasonCode → Event
event type from to occurred_at bar price reason = record {
  event_type = type;
  from_status = some from;
  to_status = to;
  occurred_at = occurred_at;
  bar_timestamp = some bar;
  price = some price;
  reason_code = reason;
}

abbrev profit : LifecycleResult
profit = record {
  signal_id = "s";
  status = tp_hit;
  created_at = epoch;
  activated_at = some (epoch + minute);
  terminal_at = some (epoch + 180000000);
  last_evaluated_at = epoch + 180000000;
  events =
      record {
        event_type = EventType.created;
        from_status = none;
        to_status = waiting;
        occurred_at = epoch;
        bar_timestamp = none;
        price = none;
        reason_code = ReasonCode.signal_created;
      }
      ∷ event EventType.activated waiting active (epoch + minute) (epoch + minute) 109
          ReasonCode.entry_execution_confirmed
      ∷ event EventType.take_profit_hit active tp_hit (epoch + 180000000) (epoch + 120000000) 130
          ReasonCode.take_profit_touched
      ∷ [];
}

profit_taken :
    replay_signal_lifecycle signal candles one_minute config fill_at_open none ≡ ok profit
unfolding replay_signal_lifecycle validate_inputs validate_candles start_run replay_bars step_bar
    step_waiting enter activate resolve_exit take_profit_touched stop_loss_touched new_result
profit_taken = refl

replay_total_example :
    (r : LifecycleResult) × (replay_signal_lifecycle signal candles one_minute config fill_at_open
        none
      ≡ ok r)
    × (new_result r ≡ ok r)
replay_total_example =
    replay_total signal candles one_minute config fill_at_open none (refl, (refl, tt)) refl
      fill_at_open-IsResolver

replay-Trace_example : Trace profit.events tp_hit
replay-Trace_example =
    replay-Trace signal candles one_minute config fill_at_open none profit profit_taken

profit_needs_untouched_stop_example : Any (Pays signal minute (some (epoch + 180000000))) candles
profit_needs_untouched_stop_example =
    profit_needs_untouched_stop signal candles one_minute config fill_at_open none profit
      profit_taken refl

replay_terminal_final_example :
    replay_signal_lifecycle signal (candles ++ crash) one_minute config fill_at_open none
    ≡ ok profit
replay_terminal_final_example =
    replay_terminal_final signal candles crash one_minute config fill_at_open none profit
      profit_taken refl (refl, (refl, (refl, tt)))

fills :
    (s : Candidate) (bar : Candle) (bar_close : Datetime)
    → bar.timestamp ≤ bar_close
    → Within bar.timestamp bar_close (evidence s bar).executed_at
fills s bar bar_close closing = ground arith

ok-injective :
    {e f : EntryEvidence} → ◌≡◌ {A = Result LifecycleError EntryEvidence} (ok e) (ok f) → e ≡ f
ok-injective h = cc

fill_at_open-IsPunctual : IsPunctual fill_at_open
fill_at_open-IsPunctual s bar previous bar_close e closing h =
    subst (λ r. Within bar.timestamp bar_close (r.executed_at)) (ok-injective h)
      (fills s bar bar_close closing)

replay_instants_in_order_example :
    (epoch ≤ profit.last_evaluated_at)
    × Within epoch profit.last_evaluated_at profit.activated_at
    × Within epoch profit.last_evaluated_at profit.terminal_at
    × Ordered profit.activated_at profit.terminal_at
replay_instants_in_order_example =
    replay_instants_in_order signal candles one_minute config fill_at_open none profit
      fill_at_open-IsPunctual profit_taken
