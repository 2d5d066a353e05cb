-- ===== src/Resampling/Defs.antt =====
-- `resample_canonical_candles`. The cutoff is an instant, so the check of its offset is left out, and
-- two timeframes are one exactly if their durations are.
use ai_trading_platform.Prelude.{
  ℕ, zero, suc, ◌+◌, ◌*◌, ◌/◌, ◌%◌, Bool, true, false, ◌&&◌, ◌||◌, not, Option, none, some, List,
  [], ◌∷◌, ◌++◌, map, min, max, ltb, leb, ◌==◌, if◌then◌else◌, Result, ok, err, ◌>>=◌,
}
use ai_trading_platform.Timeframe.{
  Timeframe, Datetime, Timedelta, timeframe_duration, timeframe_bucket_start,
}
use ai_trading_platform.Candle.{Candle, CandleError, Price, new_candle}
use ai_trading_platform.Normalize.Defs.{MarketDataError, sorted, same_times, normalize_candle_order}
use ai_trading_platform.Structure.Sequences.{filter}

pub data ResamplingError : Type 0 where
  not_a_multiple not_in_order invalid_candle : ResamplingError
  market_data_error : MarketDataError → ResamplingError

-- For a duration, which is positive.
abbrev pub remainder : ℕ → ℕ → ℕ
remainder a zero = a
remainder a (suc b) = a % suc b

abbrev pub quotient : ℕ → ℕ → ℕ
quotient a zero = 0
quotient a (suc b) = a / suc b

abbrev pub same_candle : Candle → Candle → Bool
same_candle a b =
    (a.timestamp == b.timestamp)
    && ((a.open_price == b.open_price)
        && ((a.high == b.high)
            && ((a.low == b.low) && ((a.close == b.close) && (a.volume == b.volume)))))

unfoldable pub same_candles : List Candle → List Candle → Bool
same_candles [] [] = true
same_candles (a ∷ as') (b ∷ bs) = same_candle a b && same_candles as' bs
same_candles xs ys = false

-- The candles that have closed by the cutoff.
abbrev pub closes_by : Datetime → Timedelta → Candle → Bool
closes_by cutoff duration c = leb (c.timestamp + duration) cutoff

-- One item of `grouped`.
pub record Bucket : Type 0 where
  pub start : Datetime
  pub first : Candle
  pub others : List Candle

-- `grouped.setdefault(bucket_start, []).append(candle)`
unfoldable pub add_candle : Datetime → Candle → List Bucket → List Bucket
add_candle t c [] = record { start = t; first = c; others = [] } ∷ []
add_candle t c (b ∷ bs) =
    let rest = add_candle t c bs in
    if b.start == t then record b { others = b.others ++ c ∷ [] } ∷ bs else b ∷ rest

unfoldable pub group_candles : Timeframe → List Candle → List Bucket → List Bucket
group_candles target [] bs = bs
group_candles target (c ∷ cs) bs =
    group_candles target cs (add_candle (timeframe_bucket_start c.timestamp target) c bs)

-- `bucket_start + index * source_duration` for each index of a range that starts at `i`
unfoldable pub expected_opens : Datetime → Timedelta → ℕ → ℕ → List Datetime
expected_opens start step i zero = []
expected_opens start step i (suc n) = (start + i * step) ∷ expected_opens start step (suc i) n

unfoldable pub highest : Price → List Candle → Price
highest p [] = p
highest p (c ∷ cs) = highest (max p c.high) cs

unfoldable pub lowest : Price → List Candle → Price
lowest p [] = p
lowest p (c ∷ cs) = lowest (min p c.low) cs

unfoldable pub last_close : Price → List Candle → Price
last_close p [] = p
last_close p (c ∷ cs) = last_close c.close cs

unfoldable pub total_volume : ℕ → List Candle → ℕ
total_volume v [] = v
total_volume v (c ∷ cs) = total_volume (v + c.volume) cs

-- The derived candle of a complete bucket, before its validator.
abbrev pub derived_candle : Datetime → Candle → List Candle → Candle
derived_candle start c cs = record {
  timestamp = start;
  open_price = c.open_price;
  high = highest c.high cs;
  low = lowest c.low cs;
  close = last_close c.close cs;
  volume = total_volume c.volume cs;
}

abbrev pub derived_of : Datetime → List Candle → Option Candle
derived_of start [] = none
derived_of start (c ∷ cs) = some (derived_candle start c cs)

-- What the loop over the sorted buckets adds for one: none for a bucket that is passed over.
unfoldable pub derive_bucket : Timedelta → Timedelta → Datetime → Bucket → Option Candle
derive_bucket source target cutoff b =
    let constituents = sorted (λ (c : Candle). c.timestamp) (b.first ∷ b.others) in
    if ltb cutoff (b.start + target)
    then none
    else if same_times (map (λ c. c.timestamp) constituents)
        (expected_opens b.start source 0 (quotient target source))
    then derived_of b.start constituents
    else none

abbrev pub built : Result CandleError Candle → List Candle → Result ResamplingError (List Candle)
built (ok c) cs = ok (c ∷ cs)
built (err e) cs = err invalid_candle

unfoldable pub derive_buckets :
    Timedelta → Timedelta → Datetime → List Bucket → Result ResamplingError (List Candle)
derive_buckets source target cutoff [] = ok []
derive_buckets source target cutoff (b ∷ bs) =
    let rest = derive_buckets source target cutoff bs in
    elim (derive_bucket source target cutoff b) [
      | none ↦ rest
      | some c ↦ rest >>= built (new_candle c)
    ]

abbrev pub resample_normalized :
    Timeframe
    → Timeframe
    → Datetime
    → List Candle
    → Result MarketDataError (List Candle)
    → Result ResamplingError (List Candle)
resample_normalized source target cutoff eligible (err e) = err (market_data_error e)
resample_normalized source target cutoff eligible (ok normalized) =
    let ds = timeframe_duration source in
    let dt = timeframe_duration target in
    if same_candles normalized eligible
    then if dt == ds
      then ok eligible
      else derive_buckets ds dt cutoff (sorted (λ b. b.start) (group_candles target eligible []))
    else err not_in_order

-- The work on the candles that have closed by the cutoff.
abbrev pub resample_eligible :
    Timeframe → Timeframe → Datetime → List Candle → Result ResamplingError (List Candle)
resample_eligible source target cutoff [] = ok []
resample_eligible source target cutoff (c ∷ cs) =
    resample_normalized source target cutoff (c ∷ cs)
      (normalize_candle_order (λ (x : Candle). x.timestamp) (c ∷ cs) source)

unfoldable pub resample_canonical_candles :
    List Candle → (source target : Timeframe) → Datetime → Result ResamplingError (List Candle)
resample_canonical_candles candles source target cutoff =
    let ds = timeframe_duration source in
    let dt = timeframe_duration target in
    if ltb dt ds || not (remainder dt ds == 0)
    then err not_a_multiple
    else resample_eligible source target cutoff (filter (closes_by cutoff ds) candles)
