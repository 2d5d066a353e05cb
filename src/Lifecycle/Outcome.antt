-- ===== src/Lifecycle/Outcome.antt =====
-- What a replay returns: it returns, its events are a path of the state machine, and a profit is
-- recorded only for a candle that touched the target and not the stop.
use ai_trading_platform.Prelude.{
  ◌+◌, ◌<◌, ◌≡◌, Bool, true, false, Option, none, some, List, [], ◌∷◌, arith, refl, Result, ok,
  Ensures, Ensures-ok, is_ok, is_ok-value, is_ok->>=, inl, inr, Bool-cases, >>=-returned, map,
}
use ai_trading_platform.Timeframe.{Timeframe, Datetime, Timedelta, timeframe_duration}
use ai_trading_platform.Candle.{Candle, Price}
use ai_trading_platform.Normalize.Grid.{IsSpaced, duration_pos}
use ai_trading_platform.Lifecycle.Schema.{
  LifecycleConfig, LifecycleError, Candidate, StructuralInvalidation, LifecycleResult, is_terminal,
  new_result,
}
use ai_trading_platform.Lifecycle.Events.{
  EntryEvidence, EntryResolver, Run, validate_candles, validate_inputs, predates,
  take_profit_touched, stop_loss_touched,
}
use ai_trading_platform.Lifecycle.Replay.{
  start_run, enter, step_waiting, step_bar, replay_bars, result_of, replay_signal_lifecycle,
}
use ai_trading_platform.Lifecycle.Trace.{
  Trace, IsConsistent, start_run-IsConsistent, new_result-of_IsConsistent,
}
use ai_trading_platform.Lifecycle.Invariant.{replay_bars-IsConsistent}

-- What the replay relies on of evidence: an executed entry has its instant and a positive price.
pub record IsEvidence (e : EntryEvidence) : Type 0 where
  pub at : e.executed ≡ true → (t : Datetime) × (e.executed_at ≡ some t)
  pub price : e.executed ≡ true → (p : Price) × (e.executed_entry_price ≡ some p) × (0 < p)

-- A resolver that returns such evidence for every candle.
abbrev pub IsResolver : EntryResolver → Type 0
IsResolver resolver =
    (signal : Candidate) (bar : Candle) (previous : Option Candle) (bar_close : Datetime)
    → (e : EntryEvidence) × (resolver signal bar previous bar_close ≡ ok e) × IsEvidence e

pub validate_candles-ok :
    (d : Timedelta) (candles : List Candle)
    → 0 < d
    → IsSpaced d (map (λ c. c.timestamp) candles)
    → validate_candles d candles ≡ ok tt
unfolding validate_candles
validate_candles-ok d [] p h = refl
validate_candles-ok d (a ∷ []) p h = refl
validate_candles-ok d (a ∷ b ∷ cs) p h = ground (arith, validate_candles-ok d (b ∷ cs) p h.1)

enter-is_ok :
    (signal : Candidate) (config : LifecycleConfig) (bar : Candle) (bar_close : Datetime)
    (tp sl : Bool) (e : EntryEvidence) (run : Run)
    → IsEvidence e
    → is_ok (
        enter signal config bar bar_close tp sl e.executed e.executed_at e.executed_entry_price run)
      ≡ true
unfolding enter
enter-is_ok signal config bar bar_close tp sl e run v = elim (Bool-cases e.executed) [
  | inl done ↦
      let (t, et) = v.at done in let (p, ep, pos) = v.price done in rw (done, et, ep) (ground arith)
  | inr skipped ↦ rw skipped
]

module _ (signal : Candidate) (duration : Timedelta) (config : LifecycleConfig)
    (resolver : EntryResolver) (invalidation : Option StructuralInvalidation)
    (sound : IsResolver resolver) where
  step_waiting-is_ok :
      (i : Option StructuralInvalidation) (bar : Candle) (bar_close : Datetime) (e : EntryEvidence)
      (run : Run)
      → IsEvidence e
      → is_ok (step_waiting signal config i bar bar_close e run) ≡ true
  unfolding step_waiting
  step_waiting-is_ok none bar bar_close e run v =
      enter-is_ok signal config bar bar_close _ _ e run v
  step_waiting-is_ok (some i) bar bar_close e run v = ground (
    arith,
    enter-is_ok signal config bar bar_close (take_profit_touched signal bar)
        (stop_loss_touched signal bar) e run v,
  )

  step_bar-is_ok :
      (previous : Option Candle) (bar : Candle) (run : Run)
      → is_ok (step_bar signal duration config resolver invalidation previous bar run) ≡ true
  unfolding step_bar
  step_bar-is_ok previous bar run =
      let (e, returned, v) = sound signal bar previous (bar.timestamp + duration) in
      ground
        (arith, returned, step_waiting-is_ok invalidation bar (bar.timestamp + duration) e run v)

  replay_bars-is_ok :
      (previous : Option Candle) (bars : List Candle) (run : Run)
      → is_ok (replay_bars signal duration config resolver invalidation previous bars run) ≡ true
  unfolding replay_bars
  replay_bars-is_ok previous [] run = refl
  replay_bars-is_ok previous (bar ∷ bars) run = elim (Bool-cases (is_terminal run.status)) [
    | inl t ↦ rw t
    | inr t ↦ rw t (
        is_ok->>= (step_bar signal duration config resolver invalidation previous bar run) _
          (step_bar-is_ok previous bar run)
          (λ later stepped. replay_bars-is_ok (some bar) bars later))
  ]

module _ (signal : Candidate) (candles : List Candle) (timeframe : Timeframe)
    (config : LifecycleConfig) (resolver : EntryResolver)
    (invalidation : Option StructuralInvalidation) where
  abbrev pub replayed : Result LifecycleError Run
  replayed =
      replay_bars signal (timeframe_duration timeframe) config resolver invalidation none candles
        (start_run signal invalidation)

  replayed-IsConsistent : Ensures IsConsistent replayed
  replayed-IsConsistent =
      replay_bars-IsConsistent signal (timeframe_duration timeframe) config resolver invalidation
        none candles (start_run signal invalidation) (start_run-IsConsistent signal invalidation)

  finish :
      (run : Run)
      → replayed ≡ ok run
      → new_result (result_of signal run) ≡ ok (result_of signal run)
  finish run e =
      new_result-of_IsConsistent signal run
        (Ensures-ok IsConsistent replayed run replayed-IsConsistent e)

  pub replay-Behind :
      (r : LifecycleResult)
      → replay_signal_lifecycle signal candles timeframe config resolver invalidation ≡ ok r
      → (run : Run) × (replayed ≡ ok run) × (r ≡ result_of signal run)
  unfolding replay_signal_lifecycle
  replay-Behind r h =
      let (u, valid, rest) =
        >>=-returned (validate_inputs signal candles (timeframe_duration timeframe) invalidation) _
          h in
      let (run, e, built) = >>=-returned replayed _ rest in (run, e, cc (finish run e))

  -- The events of a result lead from the creation of the signal to the status of the result, by
  -- transitions of the state machine; so no event follows a terminal status.
  pub replay-Trace :
      (r : LifecycleResult)
      → replay_signal_lifecycle signal candles timeframe config resolver invalidation ≡ ok r
      → Trace r.events r.status
  replay-Trace r h =
      let (run, e, same) = replay-Behind r h in
      rw same (Ensures-ok IsConsistent replayed run replayed-IsConsistent e).trace

  -- If the candles are one duration apart, the invalidation does not predate the signal, and the
  -- resolver returns an instant and a positive price with every executed entry, then the replay
  -- returns a result: no assertion fails, and the result passes its own validation of the status
  -- against `terminal_at` and `activated_at`.
  pub replay_total :
      IsSpaced (timeframe_duration timeframe) (map (λ c. c.timestamp) candles)
      → predates signal invalidation ≡ false
      → IsResolver resolver
      → (r : LifecycleResult) × (replay_signal_lifecycle signal candles timeframe config resolver
            invalidation
          ≡ ok r)
        × (new_result r ≡ ok r)
  unfolding replay_signal_lifecycle validate_inputs
  replay_total spaced later sound =
      let (run, e) = is_ok-value replayed (
        replay_bars-is_ok signal (timeframe_duration timeframe) config resolver invalidation sound
          none candles (start_run signal invalidation)) in
      (
        result_of signal run,
        rw
            (
              validate_candles-ok (timeframe_duration timeframe) candles (duration_pos timeframe)
                  spaced,
              later,
              e,
            )
            (finish run e),
        finish run e,
      )
