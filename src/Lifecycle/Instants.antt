-- ===== src/Lifecycle/Instants.antt =====
-- The instants of a replay: creation, entry, end and last evaluation come in this order.
use ai_trading_platform.Prelude.{
  ◌+◌, ◌≤◌, ◌≡◌, false, Option, none, some, List, [], ◌∷◌, arith, ok, Ensures, Ensures->>=,
  Ensures-ok, Ensures-if, Ensures-map, max, ltb, >>=-returned, map,
}
use ai_trading_platform.Timeframe.{Timeframe, Datetime, Timedelta, timeframe_duration}
use ai_trading_platform.Candle.{Candle}
use ai_trading_platform.Normalize.Grid.{IsSpaced}
use ai_trading_platform.Lifecycle.Schema.{
  LifecycleConfig, Candidate, StructuralInvalidation, LifecycleResult, is_terminal, is_waiting,
}
use ai_trading_platform.Lifecycle.Events.{
  EntryResolver, Run, validate_candles, validate_inputs, predates,
}
use ai_trading_platform.Lifecycle.Replay.{start_run, step_bar, replay_bars, replay_signal_lifecycle}
use ai_trading_platform.Lifecycle.Trace.{IsConsistent, start_run-IsConsistent}
use ai_trading_platform.Lifecycle.Outcome.{replayed, replay-Behind}
use ai_trading_platform.Lifecycle.Invariant.{step_bar-IsConsistent}
use ai_trading_platform.Lifecycle.Timing.{
  Within, Ordered, IsTimed, IsTimed-mono, IsPunctual, Timed, resolve_exit-Timed, step_waiting-Timed,
}

-- The open of the next candle, if there is one.
abbrev first_open : Datetime → List Candle → Datetime
first_open t [] = t
first_open t (bar ∷ bars) = bar.timestamp

IsSpaced-tail :
    (d : Timedelta) (bar : Candle) (bars : List Candle)
    → IsSpaced d (map (λ c. c.timestamp) (bar ∷ bars))
    → IsSpaced d (map (λ c. c.timestamp) bars)
IsSpaced-tail d bar [] h = tt
IsSpaced-tail d bar (b ∷ bars) h = h.1

next_open :
    (d created_at : Datetime) (bar : Candle) (bars : List Candle)
    → IsSpaced d (map (λ c. c.timestamp) (bar ∷ bars))
    → max created_at (bar.timestamp + d)
      ≤ max created_at (first_open (max created_at (bar.timestamp + d)) bars)
next_open d created_at bar [] h = omega arith
next_open d created_at bar (b ∷ bars) h = omega arith

module _ (signal : Candidate) (duration : Timedelta) (config : LifecycleConfig)
    (resolver : EntryResolver) (invalidation : Option StructuralInvalidation)
    (punctual : IsPunctual resolver) (later : predates signal invalidation ≡ false) where
  -- The limit after a candle: the close of the candle, or the creation if that is later.
  abbrev After : Candle → Run → Type 0
  After bar = IsTimed signal.created_at (max signal.created_at (bar.timestamp + duration))

  step_bar-Timed :
      (previous : Option Candle) (bar : Candle) (run : Run)
      → is_terminal run.status ≡ false
      → IsConsistent run
      → IsTimed signal.created_at (max signal.created_at bar.timestamp) run
      → Ensures (After bar) (step_bar signal duration config resolver invalidation previous bar run)
  unfolding step_bar
  step_bar-Timed previous bar run t k c =
      let bar_close = bar.timestamp + duration in
      let limit = max signal.created_at bar_close in
      let n : run.terminal_at ≡ none = ground (arith, k.terminal) in
      let le : max signal.created_at bar.timestamp ≤ limit = omega arith in
      Ensures-if (After bar) (ltb bar.timestamp signal.created_at) _ _
        (λ early.
          IsTimed-mono signal.created_at (max signal.created_at bar.timestamp) limit run le c)
        λ ready.
          let in_time : signal.created_at ≤ bar.timestamp = ground arith in
          let closing : bar.timestamp ≤ bar_close = omega arith in
          let c' =
            IsTimed-mono signal.created_at (max signal.created_at bar.timestamp) bar_close run
              (omega arith) c in
          Ensures-if (After bar) (is_waiting run.status) _ _
            (λ w. Ensures->>= (After bar) (resolver signal bar previous bar_close) _ λ e resolved.
              Ensures-map (Timed signal config bar bar_close) (After bar) _
                (λ r p. IsTimed-mono signal.created_at bar_close limit r (omega arith) p)
                (step_waiting-Timed signal config bar bar_close invalidation e run n
                  (ground (arith, k.not_activated)) in_time closing later
                  (punctual signal bar previous bar_close e closing resolved) c'))
            λ w.
              IsTimed-mono signal.created_at bar_close limit _ (omega arith)
                (resolve_exit-Timed signal config bar bar_close _ _ run n c')

  -- What the loop shows of its variables when it ends, whatever the limit.
  abbrev InOrder : Run → Type 0
  InOrder run =
      (signal.created_at ≤ run.last_evaluated_at)
      × Within signal.created_at run.last_evaluated_at run.activated_at
      × Within signal.created_at run.last_evaluated_at run.terminal_at
      × Ordered run.activated_at run.terminal_at

  replay_bars-InOrder :
      (previous : Option Candle) (bars : List Candle) (limit : Datetime) (run : Run)
      → limit ≤ max signal.created_at (first_open limit bars)
      → IsSpaced duration (map (λ c. c.timestamp) bars)
      → IsConsistent run
      → IsTimed signal.created_at limit run
      → Ensures InOrder (replay_bars signal duration config resolver invalidation previous bars run)
  unfolding replay_bars
  replay_bars-InOrder previous [] limit run le spaced k c =
      (c.evaluated, c.activated, c.terminal, c.order)
  replay_bars-InOrder previous (bar ∷ bars) limit run le spaced k c =
      let pass = step_bar signal duration config resolver invalidation previous bar run in
      Ensures-if InOrder (is_terminal run.status) _ _
        (λ t. (c.evaluated, c.activated, c.terminal, c.order))
        λ t. Ensures->>= InOrder pass _ λ next stepped.
          replay_bars-InOrder (some bar) bars (max signal.created_at (bar.timestamp + duration))
            next (next_open duration signal.created_at bar bars spaced)
            (IsSpaced-tail duration bar bars spaced)
            (Ensures-ok IsConsistent pass next
              (step_bar-IsConsistent signal duration config resolver invalidation previous bar run t
                k)
              stepped)
            (Ensures-ok (After bar) pass next
              (step_bar-Timed previous bar run t k (
                IsTimed-mono signal.created_at limit (max signal.created_at bar.timestamp) run le
                  c))
              stepped)

start_run-IsTimed :
    (signal : Candidate) (invalidation : Option StructuralInvalidation)
    → IsTimed signal.created_at signal.created_at (start_run signal invalidation)
unfolding start_run
start_run-IsTimed signal none = omega arith
start_run-IsTimed signal (some i) = ground arith

validate_candles-IsSpaced :
    (d : Timedelta) (candles : List Candle)
    → validate_candles d candles ≡ ok tt
    → IsSpaced d (map (λ c. c.timestamp) candles)
unfolding validate_candles
validate_candles-IsSpaced d [] h = tt
validate_candles-IsSpaced d (a ∷ []) h = tt
validate_candles-IsSpaced d (a ∷ b ∷ cs) h = ground (arith, validate_candles-IsSpaced d (b ∷ cs))

-- If every entry is executed within its candle, then the instants of a result are in order: the
-- signal is created first, an entry and the end lie between the creation and the last evaluation,
-- and the end does not come before the entry.
pub replay_instants_in_order :
    (signal : Candidate) (candles : List Candle) (timeframe : Timeframe) (config : LifecycleConfig)
    (resolver : EntryResolver) (invalidation : Option StructuralInvalidation) (r : LifecycleResult)
    → IsPunctual resolver
    → replay_signal_lifecycle signal candles timeframe config resolver invalidation ≡ ok r
    → (r.created_at ≤ r.last_evaluated_at)
      × Within r.created_at r.last_evaluated_at r.activated_at
      × Within r.created_at r.last_evaluated_at r.terminal_at
      × Ordered r.activated_at r.terminal_at
unfolding replay_signal_lifecycle validate_inputs
replay_instants_in_order signal candles timeframe config resolver invalidation r punctual h =
    let d = timeframe_duration timeframe in
    let (run, e, same) = replay-Behind signal candles timeframe config resolver invalidation r h in
    let (u, valid, rest) = >>=-returned (validate_inputs signal candles d invalidation) _ h in
    let (v, spaced, checked) = >>=-returned (validate_candles d candles) _ valid in
    let later : predates signal invalidation ≡ false = ground arith in
    rw same (
      Ensures-ok (InOrder signal d config resolver invalidation punctual later)
        (replayed signal candles timeframe config resolver invalidation) run
        (replay_bars-InOrder signal d config resolver invalidation punctual later none candles
          signal.created_at (start_run signal invalidation) (omega arith)
          (validate_candles-IsSpaced d candles spaced) (start_run-IsConsistent signal invalidation)
          (start_run-IsTimed signal invalidation))
        e)
