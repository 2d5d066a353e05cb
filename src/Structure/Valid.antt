-- ===== src/Structure/Valid.antt =====
-- The events of structure breaks pass the validator of their record.
use ai_trading_platform.Prelude.{
  ◌*◌, ◌<◌, ◌≡◌, true, Option-cases, List, [], ◌∷◌, arith, All, inl, inr,
}
use ai_trading_platform.Timeframe.{Timeframe, Timedelta, timeframe_duration}
use ai_trading_platform.Candle.{Candle, Price, IsCandle}
use ai_trading_platform.Structure.Schema.{
  TrendState, StructureBreakBasis, close, wick, StructureDirection, upward, downward,
  MarketStructureConfig, ConfirmedSwing, valid_event,
}
use ai_trading_platform.Structure.Breaks.{
  BreakState, start_breaks, open_candle, first_of, up_value, down_value, up_break, down_break,
  break_event, Output, nothing, event, rejection, compare_levels, step_candle, run_candles,
  events_of, detect_structure_breaks,
}

up_value-positive : (b : StructureBreakBasis) (c : Candle) → IsCandle c → 0 < up_value b c
up_value-positive close c h = ground (arith, h.low_positive, h.low_close)
up_value-positive wick c h = ground (arith, h.low_positive, h.low_close, h.close_high)

down_value-positive : (b : StructureBreakBasis) (c : Candle) → IsCandle c → 0 < down_value b c
down_value-positive close c h = ground (arith, h.low_positive, h.low_close)
down_value-positive wick c h = h.low_positive

abbrev pub IsValidOutput : Output → Type 0
IsValidOutput (event e) = valid_event e ≡ true
IsValidOutput o = Unit

module _ (config : MarketStructureConfig) (duration : Timedelta) (lasts : 0 < duration) where
  break_event-valid :
      (c : Candle) (trend : TrendState) (d : StructureDirection) (price : Price)
      (s : ConfirmedSwing)
      → 0 < price
      → valid_event (break_event config duration c trend d price s) ≡ true
  unfolding valid_event
  break_event-valid c trend d price s p = ground arith

  compare_levels-valid :
      (c : Candle) (st : BreakState)
      → IsCandle c
      → IsValidOutput (compare_levels config duration c st).0
  unfolding compare_levels
  compare_levels-valid c st h =
      let basis = config.structure_break_basis in
      let buffer = config.tick_size * config.structure_break_buffer_ticks in
      let up = up_value-positive basis c h in
      let down = down_value-positive basis c h in
      elim (Option-cases (up_break buffer (up_value basis c) (first_of st.high_unbroken))) [
        | inl u ↦
            elim (Option-cases
              (down_break buffer (down_value basis c) (first_of st.low_unbroken))) [
                | inl d ↦ rw (compare_levels, u, d) tt
                | inr (s, d) ↦ rw (compare_levels, u, d) (break_event-valid c _ downward _ s down)
              ]
        | inr (t, u) ↦
            elim (Option-cases
              (down_break buffer (down_value basis c) (first_of st.low_unbroken))) [
                | inl d ↦ rw (compare_levels, u, d) (break_event-valid c _ upward _ t up)
                | inr (s, d) ↦ rw (compare_levels, u, d) tt
              ]
      ]

  valid_output :
      (o : Output) (os : List Output)
      → IsValidOutput o
      → All (λ e. valid_event e ≡ true) (events_of os)
      → All (λ e. valid_event e ≡ true) (events_of (o ∷ os))
  unfolding events_of
  valid_output nothing os v rest = rest
  valid_output (rejection r) os v rest = rest
  valid_output (event e) os v rest = (v, rest)

  run_candles-valid :
      (cs : List Candle) (st : BreakState)
      → All IsCandle cs
      → All (λ e. valid_event e ≡ true) (events_of (run_candles config duration cs st))
  unfolding run_candles step_candle events_of
  run_candles-valid [] st a = tt
  run_candles-valid (c ∷ cs) st a =
      valid_output (step_candle config duration c st).0
        (run_candles config duration cs (step_candle config duration c st).1)
        (compare_levels-valid c (open_candle config c st) a.0)
        (run_candles-valid cs (step_candle config duration c st).1 a.1)

duration-positive : (timeframe : Timeframe) → 0 < timeframe_duration timeframe
duration-positive timeframe = ground arith

-- On candles that satisfy their own validator, every event of a structure break satisfies the
-- validator of its record: a positive price, a confirmation after its candle opened, and the CHoCH
-- alias exactly on a market structure shift.
pub structure_events_valid :
    (candles : List Candle) (swings : List ConfirmedSwing) (timeframe : Timeframe)
    (config : MarketStructureConfig)
    → All IsCandle candles
    → All (λ e. valid_event e ≡ true) (detect_structure_breaks candles swings timeframe config).0
unfolding detect_structure_breaks
structure_events_valid candles swings timeframe config a =
    run_candles-valid config (timeframe_duration timeframe) (duration-positive timeframe) candles
      (start_breaks swings) a
