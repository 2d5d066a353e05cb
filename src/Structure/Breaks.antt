-- ===== src/Structure/Breaks.antt =====
-- `_classify_trend`, `_event_type_for`, `_detect_structure_breaks` and `analyze_market_structure`
-- without its zones. A comparison with a difference of prices has the subtrahend on its other side.
use ai_trading_platform.Prelude.{
  ℕ, ◌+◌, ◌*◌, Bool, true, false, ◌&&◌, ◌||◌, Option, none, some, List, [], ◌∷◌, ◌++◌, length, ltb,
  leb, ◌==◌, if◌then◌else◌, Result, ok, ◌>>◌,
}
use ai_trading_platform.Timeframe.{Timeframe, Datetime, Timedelta, timeframe_duration}
use ai_trading_platform.Candle.{Candle, Price}
use ai_trading_platform.Structure.Schema.{
  SwingKind, high, low, TrendState, bullish, bearish, range, insufficient_data, StructureBreakBasis,
  close, wick, StructureEventType, bos, mss, break, StructureDirection, upward, downward,
  MarketStructureConfig, SwingId, same_id, same_kind, ConfirmedSwing, SwingCandidate,
  StructureBreakEvent, StructureRejection, is_mss,
}
use ai_trading_platform.Structure.Sequences.{last_n, filter, last}
use ai_trading_platform.Structure.Swings.{
  MarketStructureError, validate_candles, detect_swings, close_of,
}

-- `all(test(previous, current) for previous, current in zip(xs, xs[1:]))`
abbrev pub all_pairs : (Price → Price → Bool) → List ConfirmedSwing → Bool
all_pairs test [] = true
all_pairs test (a ∷ as') = pairs a as'
  where
    pairs : ConfirmedSwing → List ConfirmedSwing → Bool
    pairs a [] = true
    pairs a (b ∷ bs) = test a.price b.price && pairs b bs

abbrev pub of_kind : SwingKind → ConfirmedSwing → Bool
of_kind k s = same_kind s.kind k

-- The trend of the highs and the lows that count.
abbrev pub trend_of : ℕ → ℕ → (highs lows : List ConfirmedSwing) → TrendState
trend_of required tolerance highs lows =
    if ltb (length highs) required || ltb (length lows) required
    then insufficient_data
    else (let is_higher = λ (previous current : Price). ltb (previous + tolerance) current in
        let is_lower = λ (previous current : Price). ltb (current + tolerance) previous in
        if all_pairs is_higher highs && all_pairs is_higher lows
        then bullish
        else if all_pairs is_lower highs && all_pairs is_lower lows
        then bearish
        else range)

unfoldable pub classify_trend : List ConfirmedSwing → MarketStructureConfig → TrendState
classify_trend swings config =
    let required = config.trend_points_per_side in
    let highs = last_n required (filter (of_kind high) swings) in
    let lows = last_n required (filter (of_kind low) swings) in
    trend_of required (config.tick_size * config.structure_equality_tolerance_ticks) highs lows

unfoldable pub event_type_for : StructureDirection → TrendState → StructureEventType
event_type_for upward bullish = bos
event_type_for upward bearish = mss
event_type_for downward bearish = bos
event_type_for downward bullish = mss
event_type_for direction trend = break

-- The local variables of `_detect_structure_breaks`: the swings not yet consumed, the last swings of
-- each kind, the swings of each kind not known as broken with the latest first, and the broken ids.
pub record BreakState : Type 0 where
  pub pending : List ConfirmedSwing
  pub high_tail : List ConfirmedSwing
  pub low_tail : List ConfirmedSwing
  pub high_unbroken : List ConfirmedSwing
  pub low_unbroken : List ConfirmedSwing
  pub broken_structure_ids : List SwingId
  pub trend_before_break : Option TrendState

unfoldable pub start_breaks : List ConfirmedSwing → BreakState
start_breaks swings = record {
  pending = swings;
  high_tail = [];
  low_tail = [];
  high_unbroken = [];
  low_unbroken = [];
  broken_structure_ids = [];
  trend_before_break = none;
}

-- One turn of the inner `while`: an append to a deque of bounded length, and one to a list.
abbrev pub take_swing : ℕ → ConfirmedSwing → BreakState → BreakState
take_swing n swing st = elim swing.kind [
  | high ↦ record st {
    high_tail = last_n n (st.high_tail ++ swing ∷ []);
    high_unbroken = swing ∷ st.high_unbroken;
  }
  | low ↦ record st {
    low_tail = last_n n (st.low_tail ++ swing ∷ []);
    low_unbroken = swing ∷ st.low_unbroken;
  }
]

-- The inner `while` over the swings that are not consumed.
unfoldable pub consume : ℕ → Datetime → List ConfirmedSwing → BreakState → BreakState
consume n opened [] st = record st { pending = [] }
consume n opened (swing ∷ swings) st =
    let later = consume n opened swings (take_swing n swing st) in
    if leb swing.confirmed_at opened then later else record st { pending = swing ∷ swings }

abbrev pub trend_due : MarketStructureConfig → BreakState → BreakState → TrendState
trend_due config before after =
    let fresh = classify_trend (after.high_tail ++ after.low_tail) config in
    elim before.trend_before_break [
      | none ↦ fresh
      | some trend ↦ if length before.pending == length after.pending then trend else fresh
    ]

unfoldable pub mem_id : SwingId → List SwingId → Bool
mem_id id [] = false
mem_id id (x ∷ xs) = same_id id x || mem_id id xs

-- `while values and values[-1].swing_id in broken_structure_ids: values.pop()`
unfoldable pub pop_broken : List SwingId → List ConfirmedSwing → List ConfirmedSwing
pop_broken broken [] = []
pop_broken broken (s ∷ ss) =
    let rest = pop_broken broken ss in if mem_id s.swing_id broken then rest else s ∷ ss

-- The work of a candle before its comparisons.
unfoldable pub open_candle : MarketStructureConfig → Candle → BreakState → BreakState
open_candle config candle st =
    let after = consume config.trend_points_per_side candle.timestamp st.pending st in
    record after {
      trend_before_break = some (trend_due config st after);
      high_unbroken = pop_broken after.broken_structure_ids after.high_unbroken;
      low_unbroken = pop_broken after.broken_structure_ids after.low_unbroken;
    }

abbrev pub first_of : List ConfirmedSwing → Option ConfirmedSwing
first_of [] = none
first_of (s ∷ ss) = some s

abbrev pub up_value : StructureBreakBasis → Candle → Price
up_value close c = c.close
up_value wick c = c.high

abbrev pub down_value : StructureBreakBasis → Candle → Price
down_value close c = c.close
down_value wick c = c.low

-- The level that a candle breaks upwards, or downwards.
unfoldable pub up_break : ℕ → Price → Option ConfirmedSwing → Option ConfirmedSwing
up_break buffer value none = none
up_break buffer value (some s) = if ltb (s.price + buffer) value then some s else none

unfoldable pub down_break : ℕ → Price → Option ConfirmedSwing → Option ConfirmedSwing
down_break buffer value none = none
down_break buffer value (some s) = if ltb (value + buffer) s.price then some s else none

pub data Output : Type 0 where
  nothing : Output
  event : StructureBreakEvent → Output
  rejection : StructureRejection → Output

abbrev pub break_event :
    MarketStructureConfig
    → Timedelta
    → Candle
    → TrendState
    → StructureDirection
    → Price
    → ConfirmedSwing
    → StructureBreakEvent
break_event config duration candle trend direction price level = record {
  event_type = event_type_for direction trend;
  direction = direction;
  price = price;
  timestamp = candle.timestamp;
  broken_structure_id = level.swing_id;
  confirmation_type = config.structure_break_basis;
  confirmed_at = candle.timestamp + duration;
  display_alias = is_mss (event_type_for direction trend);
  trend_before_break = trend;
}

abbrev pub current_trend : Option TrendState → TrendState
current_trend none = insufficient_data
current_trend (some t) = t

-- The comparisons of a candle with the two levels, and their outcome.
unfoldable pub compare_levels :
    MarketStructureConfig → Timedelta → Candle → BreakState → Output × BreakState
compare_levels config duration candle st =
    let basis = config.structure_break_basis in
    let buffer = config.tick_size * config.structure_break_buffer_ticks in
    let trend = current_trend st.trend_before_break in
    elim (up_break buffer (up_value basis candle) (first_of st.high_unbroken)) [
      | none ↦ elim (down_break buffer (down_value basis candle) (first_of st.low_unbroken)) [
        | none ↦ (nothing, st)
        | some down ↦ (
          event (break_event config duration candle trend downward (down_value basis candle) down),
          record st { broken_structure_ids = down.swing_id ∷ st.broken_structure_ids },
        )
      ]
      | some up ↦ elim (down_break buffer (down_value basis candle) (first_of st.low_unbroken)) [
        | none ↦ (
          event (break_event config duration candle trend upward (up_value basis candle) up),
          record st { broken_structure_ids = up.swing_id ∷ st.broken_structure_ids },
        )
        | some down ↦ (
          rejection (record {
            timestamp = candle.timestamp;
            confirmed_at = candle.timestamp + duration;
            up_structure_id = up.swing_id;
            down_structure_id = down.swing_id;
          }),
          st,
        )
      ]
    ]

unfoldable pub step_candle :
    MarketStructureConfig → Timedelta → Candle → BreakState → Output × BreakState
step_candle config duration candle st =
    compare_levels config duration candle (open_candle config candle st)

unfoldable pub run_candles :
    MarketStructureConfig → Timedelta → List Candle → BreakState → List Output
run_candles config duration [] st = []
run_candles config duration (c ∷ cs) st =
    let (out, after) = step_candle config duration c st in
    out ∷ run_candles config duration cs after

unfoldable pub events_of : List Output → List StructureBreakEvent
events_of [] = []
events_of (event e ∷ os) = e ∷ events_of os
events_of (o ∷ os) = events_of os

unfoldable pub rejections_of : List Output → List StructureRejection
rejections_of [] = []
rejections_of (rejection r ∷ os) = r ∷ rejections_of os
rejections_of (o ∷ os) = rejections_of os

unfoldable pub detect_structure_breaks :
    List Candle
    → List ConfirmedSwing
    → Timeframe
    → MarketStructureConfig
    → List StructureBreakEvent × List StructureRejection
detect_structure_breaks candles swings timeframe config =
    let outputs = run_candles config (timeframe_duration timeframe) candles (start_breaks swings) in
    (events_of outputs, rejections_of outputs)

-- The result without the fields that repeat the arguments, and without the zones.
pub record MarketStructureResult : Type 0 where
  pub candle_count : ℕ
  pub data_cutoff_at : Option Datetime
  pub candidate_swings : List SwingCandidate
  pub confirmed_swings : List ConfirmedSwing
  pub trend_state : TrendState
  pub structure_events : List StructureBreakEvent
  pub structure_rejections : List StructureRejection

unfoldable pub analyze_market_structure :
    List Candle
    → Timeframe
    → MarketStructureConfig
    → Result MarketStructureError MarketStructureResult
analyze_market_structure candles timeframe config = do
  validate_candles candles timeframe config.tick_size
  let (candidates, confirmed) = detect_swings candles timeframe config
  let (events, rejections) = detect_structure_breaks candles confirmed timeframe config
  ok (record {
    candle_count = length candles;
    data_cutoff_at = close_of (timeframe_duration timeframe) (last candles);
    candidate_swings = candidates;
    confirmed_swings = confirmed;
    trend_state = classify_trend confirmed config;
    structure_events = events;
    structure_rejections = rejections;
  })
