-- ===== src/Lifecycle/Prefix.antt =====
-- The replay is causal: what later candles hold cannot change a result that is terminal already.
use ai_trading_platform.Prelude.{
  ◌≡◌, true, Option, none, some, List, [], ◌∷◌, ◌++◌, refl, sym, ok, ◌>>=◌, inl, inr, Bool-cases,
  map, bind_split,
}
use ai_trading_platform.Timeframe.{Timeframe, Timedelta, timeframe_duration}
use ai_trading_platform.Candle.{Candle}
use ai_trading_platform.Normalize.Grid.{IsSpaced, duration_pos}
use ai_trading_platform.Lifecycle.Schema.{
  LifecycleConfig, Candidate, StructuralInvalidation, LifecycleResult, is_terminal,
}
use ai_trading_platform.Lifecycle.Events.{EntryResolver, Run, validate_inputs}
use ai_trading_platform.Lifecycle.Replay.{start_run, step_bar, replay_bars, replay_signal_lifecycle}
use ai_trading_platform.Lifecycle.Outcome.{replay-Behind, validate_candles-ok}
use ai_trading_platform.Lifecycle.Profit.{replay_bars-of_terminal}

-- The candle before the next one.
abbrev pub last_bar : Option Candle → List Candle → Option Candle
last_bar previous [] = previous
last_bar previous (bar ∷ bars) = last_bar (some bar) bars

module _ (signal : Candidate) (duration : Timedelta) (config : LifecycleConfig)
    (resolver : EntryResolver) (invalidation : Option StructuralInvalidation) where
  -- A replay of two runs of candles, one after the other, goes on with the second where the first
  -- has left the variables.
  pub replay_bars-append :
      (previous : Option Candle) (xs ys : List Candle) (run : Run)
      → replay_bars signal duration config resolver invalidation previous (xs ++ ys) run ≡ (
          replay_bars signal duration config resolver invalidation previous xs run >>= λ later.
          replay_bars signal duration config resolver invalidation (last_bar previous xs) ys later)
  unfolding replay_bars
  replay_bars-append previous [] ys run = refl
  replay_bars-append previous (x ∷ xs) ys run = elim (Bool-cases (is_terminal run.status)) [
    | inl t ↦ rw t (
        sym (
          replay_bars-of_terminal signal duration config resolver invalidation
            (last_bar (some x) xs) ys run t))
    | inr t ↦ rw t (
        bind_split (step_bar signal duration config resolver invalidation previous x run) _ _ _
          (λ later. replay_bars-append (some x) xs ys later))
  ]

IsSpaced-prefix :
    (d : Timedelta) (xs ys : List Candle)
    → IsSpaced d (map (λ c. c.timestamp) (xs ++ ys))
    → IsSpaced d (map (λ c. c.timestamp) xs)
IsSpaced-prefix d [] ys h = tt
IsSpaced-prefix d (x ∷ []) ys h = tt
IsSpaced-prefix d (x ∷ y ∷ xs) ys h = (h.0, IsSpaced-prefix d (y ∷ xs) ys h.1)

-- No look-ahead: if the replay of some candles gives a terminal result, then with any further
-- candles, one duration apart, it gives the same result, whatever they hold and whatever the
-- resolver says of them.
pub replay_terminal_final :
    (signal : Candidate) (xs ys : List Candle) (timeframe : Timeframe) (config : LifecycleConfig)
    (resolver : EntryResolver) (invalidation : Option StructuralInvalidation) (r : LifecycleResult)
    → replay_signal_lifecycle signal xs timeframe config resolver invalidation ≡ ok r
    → is_terminal r.status ≡ true
    → IsSpaced (timeframe_duration timeframe) (map (λ c. c.timestamp) (xs ++ ys))
    → replay_signal_lifecycle signal (xs ++ ys) timeframe config resolver invalidation ≡ ok r
unfolding replay_signal_lifecycle validate_inputs
replay_terminal_final signal xs ys timeframe config resolver invalidation r h t spaced =
    let d = timeframe_duration timeframe in
    let (run, e, same) = replay-Behind signal xs timeframe config resolver invalidation r h in
    let s : replay_bars signal d config resolver invalidation none (xs ++ ys)
          (start_run signal invalidation)
        ≡ ok run =
      rw
        (
          replay_bars-append signal d config resolver invalidation none xs ys
              (start_run signal invalidation),
          e,
        )
        (replay_bars-of_terminal signal d config resolver invalidation (last_bar none xs) ys run
          (rw same at t)) in
    rw (validate_candles-ok d (xs ++ ys) (duration_pos timeframe) spaced, s)
      (rw (validate_candles-ok d xs (duration_pos timeframe) (IsSpaced-prefix d xs ys spaced), e) at
        h)
