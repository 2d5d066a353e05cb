-- ===== src/Structure/Swings.antt =====
-- `_validate_candles`, `_left_qualifies`, `_fully_qualifies` and `_detect_swings`.
use ai_trading_platform.Prelude.{
  ℕ, zero, suc, ◌+◌, ◌%◌, Bool, false, ◌&&◌, Option, none, some, List, [], ◌∷◌, ◌++◌, map, length,
  min, ltb, leb, ◌==◌, if◌then◌else◌, Result, ok, err, ◌>>◌,
}
use ai_trading_platform.Timeframe.{Timeframe, Datetime, Timedelta, timeframe_duration}
use ai_trading_platform.Candle.{Candle, Price}
use ai_trading_platform.Structure.Schema.{
  SwingKind, high, low, SwingTiePolicy, strict, earliest, latest, pending, confirmed, rejected,
  MarketStructureConfig, SwingId, SwingCandidate, ConfirmedSwing,
}
use ai_trading_platform.Structure.Sequences.{take, last_n, all, last}

pub data MarketStructureError : Type 0 where
  price_not_aligned not_ascending timeframe_gap : MarketStructureError

abbrev pub is_aligned : ℕ → Price → Bool
is_aligned zero price = false
is_aligned (suc n) price = (price % suc n) == 0

-- the first loop of `_validate_candles`
unfoldable pub validate_ticks : ℕ → List Candle → Result MarketStructureError (Unit {0})
validate_ticks tick [] = ok tt
validate_ticks tick (c ∷ cs) =
    if is_aligned tick c.open_price
      && (is_aligned tick c.high && (is_aligned tick c.low && is_aligned tick c.close))
    then validate_ticks tick cs
    else err price_not_aligned

-- the second loop of `_validate_candles`
unfoldable pub validate_gaps : Timedelta → List Candle → Result MarketStructureError (Unit {0})
validate_gaps delta (a ∷ b ∷ cs) =
    if leb b.timestamp a.timestamp
    then err not_ascending
    else if b.timestamp == a.timestamp + delta
    then validate_gaps delta (b ∷ cs)
    else err timeframe_gap
validate_gaps delta cs = ok tt

unfoldable pub validate_candles :
    List Candle → Timeframe → ℕ → Result MarketStructureError (Unit {0})
validate_candles candles timeframe tick_size = do
  validate_ticks tick_size candles
  validate_gaps (timeframe_duration timeframe) candles

-- The four comparisons of a price with the others of its window.
abbrev pub beats : SwingKind → Price → Price → Bool
beats high price other = ltb other price
beats low price other = ltb price other

abbrev pub ties_or_beats : SwingKind → Price → Price → Bool
ties_or_beats high price other = leb other price
ties_or_beats low price other = leb price other

unfoldable pub left_qualifies : SwingKind → Price → List Price → SwingTiePolicy → Bool
left_qualifies kind price left_prices latest = all (ties_or_beats kind price) left_prices
left_qualifies kind price left_prices policy = all (beats kind price) left_prices

unfoldable pub fully_qualifies :
    SwingKind → Price → (left_prices right_prices : List Price) → SwingTiePolicy → Bool
fully_qualifies kind price left_prices right_prices strict =
    all (beats kind price) left_prices && all (beats kind price) right_prices
fully_qualifies kind price left_prices right_prices earliest =
    all (beats kind price) left_prices && all (ties_or_beats kind price) right_prices
fully_qualifies kind price left_prices right_prices latest =
    all (ties_or_beats kind price) left_prices && all (beats kind price) right_prices

abbrev pub swing_price : SwingKind → Candle → Price
swing_price high c = c.high
swing_price low c = c.low

abbrev pub close_of : Timedelta → Option Candle → Option Datetime
close_of duration none = none
close_of duration (some c) = some (c.timestamp + duration)

abbrev pub timestamps : List Candle → List Datetime
timestamps cs = map (λ c. c.timestamp) cs

abbrev pub Found : Type 0
Found = List (SwingCandidate × Option ConfirmedSwing)

-- What the loop body adds for one kind: the candidate, and the swing when the full window confirms it.
-- `before` are the candles before the pivot, `right` the `available` candles of its right window.
unfoldable pub window_swing :
    MarketStructureConfig → Timedelta → List Candle → Candle → ℕ → List Candle → SwingKind → Found
window_swing config duration before pivot available right kind =
    let left = last_n config.swing_left_bars before in
    let price = swing_price kind pivot in
    let left_prices = map (swing_price kind) left in
    let id : SwingId = record { id_kind = kind; id_timestamp = pivot.timestamp } in
    let candidate_at = pivot.timestamp + duration in
    let is_full = available == config.swing_right_bars in
    let resolved_at = if is_full then close_of duration (last right) else none in
    let qualifies =
      fully_qualifies kind price left_prices (map (swing_price kind) right)
        config.swing_tie_policy in
    let resolution = if is_full then (if qualifies then confirmed else rejected) else pending in
    let candidate : SwingCandidate = record {
      candidate_id = id;
      kind = kind;
      pivot_index = length before;
      pivot_timestamp = pivot.timestamp;
      price = price;
      candidate_at = candidate_at;
      required_right_bars = config.swing_right_bars;
      observed_right_bars = available;
      resolution = resolution;
      resolved_at = resolved_at;
    } in
    let swing : Datetime → ConfirmedSwing = λ t. record {
      swing_id = id;
      source_candidate_id = id;
      kind = kind;
      pivot_index = length before;
      pivot_timestamp = pivot.timestamp;
      price = price;
      candidate_at = candidate_at;
      confirmed_at = t;
      left_evidence_timestamps = timestamps left;
      right_evidence_timestamps = timestamps right;
    } in
    if left_qualifies kind price left_prices config.swing_tie_policy
    then (
      candidate,
      elim resolved_at [ none ↦ none | some t ↦ if qualifies then some (swing t) else none ],
    )
      ∷ []
    else []

-- `rest` are the candles after the pivot.
unfoldable pub pivot_swing :
    MarketStructureConfig → Timedelta → List Candle → Candle → List Candle → SwingKind → Found
pivot_swing config duration before pivot rest kind =
    let available = min config.swing_right_bars (length rest) in
    window_swing config duration before pivot available (take available rest) kind

-- The loop of `_detect_swings`, from the first candle with enough candles before it.
unfoldable pub detect_from : MarketStructureConfig → Timedelta → List Candle → List Candle → Found
detect_from config duration before [] = []
detect_from config duration before (pivot ∷ rest) =
    let later = detect_from config duration (before ++ pivot ∷ []) rest in
    if ltb (length before) config.swing_left_bars
    then later
    else pivot_swing config duration before pivot rest high
      ++ (pivot_swing config duration before pivot rest low ++ later)

unfoldable pub confirmed_of : Found → List ConfirmedSwing
confirmed_of [] = []
confirmed_of ((c, none) ∷ fs) = confirmed_of fs
confirmed_of ((c, some s) ∷ fs) = s ∷ confirmed_of fs

unfoldable pub detect_swings :
    List Candle → Timeframe → MarketStructureConfig → List SwingCandidate × List ConfirmedSwing
detect_swings candles timeframe config =
    let found = detect_from config (timeframe_duration timeframe) [] candles in
    (map (λ f. f.0) found, confirmed_of found)
