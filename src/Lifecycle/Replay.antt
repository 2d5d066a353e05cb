-- ===== src/Lifecycle/Replay.antt =====
-- `replay_signal_lifecycle` of backend/app/engines/signal/lifecycle.py. The entry resolver is the
-- caller's function, as in the source. A pass of the loop is `step_bar`; a `break` follows every
-- terminal status, so the loop stops by the test of the status alone.
use ai_trading_platform.Prelude.{
  ◌+◌, max, Bool, true, false, ◌&&◌, ◌||◌, not, Option, none, some, List, [], ◌∷◌, ltb, leb, ◌==◌,
  if◌then◌else◌, Result, ok, err, ◌>>=◌, ◌>>◌,
}
use ai_trading_platform.Timeframe.{Timeframe, Datetime, Timedelta, timeframe_duration}
use ai_trading_platform.Candle.{Price, Candle}
use ai_trading_platform.Lifecycle.Schema.{
  Status, waiting, active, tp_hit, sl_hit, EventType, ReasonCode, SameCandlePolicy, LifecycleConfig,
  LifecycleError, missing_execution_evidence, price_not_positive, Candidate, StructuralInvalidation,
  LifecycleResult, is_terminal, is_waiting, new_result,
}
use ai_trading_platform.Lifecycle.Events.{
  EntryEvidence, EntryResolver, Run, append_event, validate_inputs, take_profit_touched,
  stop_loss_touched, exit_event, invalidation_event, ambiguous_event,
}

abbrev created_run : Candidate → Run
created_run signal = record {
  status = waiting;
  activated_at = none;
  terminal_at = none;
  last_evaluated_at = signal.created_at;
  events =
      record {
        event_type = EventType.created;
        from_status = none;
        to_status = waiting;
        occurred_at = signal.created_at;
        bar_timestamp = none;
        price = none;
        reason_code = ReasonCode.signal_created;
      }
      ∷ [];
}

-- The variables before the loop: the signal is created, and cancelled at once if the structure was
-- invalidated at that instant.
unfoldable pub start_run : Candidate → Option StructuralInvalidation → Run
start_run signal invalidation = elim invalidation [
  | none ↦ created_run signal
  | some i ↦
      if i.confirmed_at == signal.created_at
      then append_event
          (record (created_run signal) {
            status = Status.cancelled;
            terminal_at = some i.confirmed_at;
          })
          (invalidation_event i waiting none)
      else created_run signal
]

-- The end of a pass, for a trade that is active when the candle's extremes count.
unfoldable pub resolve_exit :
    Candidate → LifecycleConfig → Candle → Datetime → Bool → Bool → Run → Run
resolve_exit signal config bar bar_close tp sl run =
    let s = record run { last_evaluated_at = bar_close } in
    if tp && sl
    then elim config.same_candle_policy [
      | SameCandlePolicy.conservative_stop_first ↦
          append_event (record s { status = sl_hit; terminal_at = some bar_close })
            (exit_event sl_hit bar bar_close signal.stop_loss ReasonCode.conservative_stop_first)
      | SameCandlePolicy.ambiguous ↦
          append_event (record s { status = Status.ambiguous; terminal_at = some bar_close })
            (ambiguous_event active bar bar_close ReasonCode.tp_and_sl_touched_same_candle)
    ]
    else if tp
    then append_event (record s { status = tp_hit; terminal_at = some bar_close })
        (exit_event tp_hit bar bar_close signal.take_profit ReasonCode.take_profit_touched)
    else if sl
    then append_event (record s { status = sl_hit; terminal_at = some bar_close })
        (exit_event sl_hit bar bar_close signal.stop_loss ReasonCode.stop_loss_touched)
    else s

-- The run with the entry recorded.
abbrev pub activated_run : Candle → Datetime → Datetime → Price → Run → Run
activated_run bar bar_close executed_at price run =
    append_event
      (record run {
        status = active;
        activated_at = some executed_at;
        last_evaluated_at = bar_close;
      })
      (record {
        event_type = EventType.activated;
        from_status = some waiting;
        to_status = active;
        occurred_at = executed_at;
        bar_timestamp = some bar.timestamp;
        price = some price;
        reason_code = ReasonCode.entry_execution_confirmed;
      })

-- An executed entry, and what the same candle does to it: `open_fill` is true of an entry that
-- precedes the rest of the candle.
unfoldable pub activate :
    Candidate → LifecycleConfig → Candle → Datetime → Bool → Bool → Datetime → Price → Run → Run
activate signal config bar bar_close tp sl executed_at price run =
    let s = activated_run bar bar_close executed_at price run in
    let open_fill = executed_at == bar.timestamp in
    if (tp || sl) && not open_fill
    then append_event (record s { status = Status.ambiguous; terminal_at = some bar_close })
        (ambiguous_event active bar bar_close ReasonCode.entry_and_exit_order_unknown)
    else if not (tp || sl)
    then s
    else resolve_exit signal config bar bar_close tp sl s

-- The three assertions on executed evidence, and the bound `gt=0` on the price of an event.
unfoldable pub enter :
    Candidate
    → LifecycleConfig
    → Candle
    → Datetime
    → Bool
    → Bool
    → Bool
    → Option Datetime
    → Option Price
    → Run
    → Result LifecycleError Run
enter signal config bar bar_close tp sl false executed_at price run =
    ok (record run { last_evaluated_at = bar_close })
enter signal config bar bar_close tp sl true none price run = err missing_execution_evidence
enter signal config bar bar_close tp sl true (some executed_at) none run =
    err missing_execution_evidence
enter signal config bar bar_close tp sl true (some executed_at) (some price) run =
    if ltb 0 price
    then ok (activate signal config bar bar_close tp sl executed_at price run)
    else err price_not_positive

-- A pass over a waiting signal: the invalidation comes before the entry.
unfoldable pub step_waiting :
    Candidate
    → LifecycleConfig
    → Option StructuralInvalidation
    → Candle
    → Datetime
    → EntryEvidence
    → Run
    → Result LifecycleError Run
step_waiting signal config none bar bar_close e run =
    enter signal config bar bar_close (take_profit_touched signal bar)
      (stop_loss_touched signal bar) e.executed e.executed_at e.executed_entry_price run
step_waiting signal config (some i) bar bar_close e run =
    if leb i.confirmed_at bar.timestamp
    then ok (
        append_event
          (record run {
            status = Status.cancelled;
            terminal_at = some i.confirmed_at;
            last_evaluated_at = max run.last_evaluated_at i.confirmed_at;
          })
          (invalidation_event i waiting none))
    else if leb i.confirmed_at bar_close
    then (if e.executed
        then ok (
            append_event
              (record run {
                status = Status.ambiguous;
                terminal_at = some bar_close;
                last_evaluated_at = bar_close;
              })
              (ambiguous_event waiting bar bar_close
                ReasonCode.entry_and_invalidation_order_unknown))
        else ok (
            append_event
              (record run {
                status = Status.cancelled;
                terminal_at = some i.confirmed_at;
                last_evaluated_at = bar_close;
              })
              (invalidation_event i waiting (some bar.timestamp))))
    else enter signal config bar bar_close (take_profit_touched signal bar)
        (stop_loss_touched signal bar) e.executed e.executed_at e.executed_entry_price run

module _ (signal : Candidate) (duration : Timedelta) (config : LifecycleConfig)
    (resolver : EntryResolver) (invalidation : Option StructuralInvalidation) where
  -- One pass of the loop, for a status that is not terminal.
  unfoldable pub step_bar : Option Candle → Candle → Run → Result LifecycleError Run
  step_bar previous bar run =
      let bar_close = bar.timestamp + duration in
      if ltb bar.timestamp signal.created_at
      then ok run
      else if is_waiting run.status
      then (resolver signal bar previous bar_close >>= λ e.
          step_waiting signal config invalidation bar bar_close e run)
      else ok (
          resolve_exit signal config bar bar_close (take_profit_touched signal bar)
            (stop_loss_touched signal bar) run)

  unfoldable pub replay_bars : Option Candle → List Candle → Run → Result LifecycleError Run
  replay_bars previous [] run = ok run
  replay_bars previous (bar ∷ bars) run =
      if is_terminal run.status
      then ok run
      else (step_bar previous bar run >>= λ next. replay_bars (some bar) bars next)

abbrev pub result_of : Candidate → Run → LifecycleResult
result_of signal run = record {
  signal_id = signal.signal_id;
  status = run.status;
  created_at = signal.created_at;
  activated_at = run.activated_at;
  terminal_at = run.terminal_at;
  last_evaluated_at = run.last_evaluated_at;
  events = run.events;
}

unfoldable pub replay_signal_lifecycle :
    Candidate
    → List Candle
    → Timeframe
    → LifecycleConfig
    → EntryResolver
    → Option StructuralInvalidation
    → Result LifecycleError LifecycleResult
replay_signal_lifecycle signal candles timeframe config resolver invalidation = do
  let duration = timeframe_duration timeframe
  validate_inputs signal candles duration invalidation
  run ←
      replay_bars signal duration config resolver invalidation none candles
        (start_run signal invalidation)
  new_result (result_of signal run)
