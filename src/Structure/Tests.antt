-- ===== src/Structure/Tests.antt =====
-- Five one-minute candles with one swing high, which the last candle breaks.
use ai_trading_platform.Prelude.{All, arith, true, ℕ, ◌+◌, ◌*◌, ◌≡◌, refl, List, [], ◌∷◌, ◌++◌, map}
use ai_trading_platform.Timeframe.{one_minute, epoch, minute}
use ai_trading_platform.Candle.{Candle, IsCandle}
use ai_trading_platform.Structure.Schema.{
  strict, close, MarketStructureConfig, ConfirmedSwing, valid_event,
}
use ai_trading_platform.Structure.Sequences.{take, last_n, filter, all, last, Extends}
use ai_trading_platform.Structure.Swings.{
  left_qualifies, fully_qualifies, window_swing, pivot_swing, detect_from, confirmed_of,
  detect_swings,
}
use ai_trading_platform.Structure.Stability.{detect_swings-Extends}
use ai_trading_platform.Structure.Breaks.{
  classify_trend, event_type_for, start_breaks, consume, mem_id, pop_broken, open_candle, up_break,
  down_break, compare_levels, step_candle, run_candles, events_of, detect_structure_breaks,
}
use ai_trading_platform.Structure.Valid.{structure_events_valid}
use ai_trading_platform.Structure.Fresh.{AllFresh, structure_breaks_once}

abbrev config : MarketStructureConfig
config = record {
  tick_size = 1;
  swing_left_bars = 1;
  swing_right_bars = 1;
  swing_tie_policy = strict;
  trend_points_per_side = 2;
  structure_equality_tolerance_ticks = 0;
  structure_break_basis = close;
  structure_break_buffer_ticks = 1;
}

abbrev bar : ℕ → ℕ → ℕ → ℕ → Candle
bar n top bottom last_price = record {
  timestamp = epoch + n * minute;
  open_price = bottom;
  high = top;
  low = bottom;
  close = last_price;
  volume = 1;
}

abbrev candles : List Candle
candles = bar 0 10 5 8 ∷ bar 1 14 6 9 ∷ bar 2 12 7 9 ∷ []

abbrev more : List Candle
more = bar 3 13 8 12 ∷ bar 4 18 9 17 ∷ []

-- The price and the index of the confirmed swings.
abbrev points : List ConfirmedSwing → List (ℕ × ℕ)
points ss = map {B = ℕ × ℕ} (λ s. (s.pivot_index, s.price)) ss

one_swing : points (detect_swings candles one_minute config).1 ≡ (1, 14) ∷ []
unfolding detect_swings detect_from pivot_swing window_swing left_qualifies fully_qualifies
    confirmed_of take last_n all last
one_swing = refl

-- The swing high of the second candle is broken by the close of the fifth.
abbrev all_candles : List Candle
all_candles = candles ++ more

broken_points :
    map {B = ℕ × ℕ}
      (λ e. (e.timestamp, e.price))
      (detect_structure_breaks all_candles
        (detect_swings all_candles one_minute config).1
        one_minute
        config).0
    ≡ (epoch + 4 * minute, 17) ∷ []
unfolding detect_swings detect_from pivot_swing window_swing left_qualifies fully_qualifies
    confirmed_of take last_n all last classify_trend event_type_for start_breaks consume mem_id
    pop_broken open_candle up_break down_break compare_levels step_candle run_candles events_of
    detect_structure_breaks filter
broken_points = refl

detect_swings-Extends_example :
    Extends
      (detect_swings candles one_minute config).1
      (detect_swings (candles ++ more) one_minute config).1
detect_swings-Extends_example = detect_swings-Extends candles more one_minute config

structure_breaks_once_example :
    AllFresh []
      (detect_structure_breaks all_candles
        (detect_swings all_candles one_minute config).1
        one_minute
        config).0
structure_breaks_once_example =
    structure_breaks_once all_candles (detect_swings all_candles one_minute config).1 one_minute
      config

-- A bar whose three prices step up from a positive low.
bar-IsCandle :
    (n low_price a b : ℕ)
    → IsCandle (bar n (low_price + 1 + a + b) (low_price + 1) (low_price + 1 + a))
bar-IsCandle n low_price a b = record {
  low_positive = omega arith;
  low_open = omega arith;
  low_close = omega arith;
  open_high = omega arith;
  close_high = omega arith;
}

all_candles-IsCandle : All IsCandle all_candles
all_candles-IsCandle = (
  bar-IsCandle 0 4 3 2,
  (
    bar-IsCandle 1 5 3 5,
    (bar-IsCandle 2 6 2 3, (bar-IsCandle 3 7 4 1, (bar-IsCandle 4 8 8 1, tt))),
  ),
)

structure_events_valid_example :
    All
      (λ e. valid_event e ≡ true)
      (detect_structure_breaks all_candles
        (detect_swings all_candles one_minute config).1
        one_minute
        config).0
structure_events_valid_example =
    structure_events_valid all_candles (detect_swings all_candles one_minute config).1 one_minute
      config all_candles-IsCandle
