-- ===== src/Normalize/Defs.antt =====
-- The validation and the sort of backend/app/market_data/normalization.py.
use ai_trading_platform.Prelude.{
  ◌+◌, Bool, true, false, ◌||◌, Option, none, some, List, [], ◌∷◌, map, ltb, leb, ◌==◌, not,
  if◌then◌else◌, Result, ok, err, ◌>>◌, raise_if,
}
use ai_trading_platform.Timeframe.{
  Timeframe, Datetime, Timedelta, timeframe_duration, timeframe_bucket_start,
}

pub data MarketDataError : Type 0 where
  empty_candle_set duplicate_timestamp missing_candle out_of_order_timestamp : MarketDataError
  timeframe_alignment session_calendar_mismatch : MarketDataError

abbrev pub Check : Type 0
Check = Result MarketDataError (Unit {0})

abbrev pub mem_time : Datetime → List Datetime → Bool
mem_time t [] = false
mem_time t (u ∷ us) = (t == u) || mem_time t us

-- `len(set(timestamps)) != len(timestamps)`
unfoldable pub has_duplicates : List Datetime → Bool
has_duplicates [] = false
has_duplicates (t ∷ ts) = mem_time t ts || has_duplicates ts

abbrev pub same_times : List Datetime → List Datetime → Bool
same_times [] [] = true
same_times (a ∷ as') (b ∷ bs) = if a == b then same_times as' bs else false
same_times xs ys = false

-- `any(current < previous for previous, current in zip(ordered, ordered[1:]))`
unfoldable pub is_out_of_order : List Datetime → Bool
is_out_of_order (a ∷ b ∷ ts) = ltb b a || is_out_of_order (b ∷ ts)
is_out_of_order ts = false

-- the loop of `validate_candle_alignment`
unfoldable pub validate_candle_alignment : Timeframe → List Datetime → Check
validate_candle_alignment tf [] = ok tt
validate_candle_alignment tf (t ∷ ts) =
    if timeframe_bucket_start t tf == t
    then validate_candle_alignment tf ts
    else err timeframe_alignment

-- the last loop of `_validate_ordered_candles`
unfoldable pub validate_spacing : Timedelta → List Datetime → Check
validate_spacing interval (a ∷ b ∷ ts) =
    if ltb (a + interval) b
    then err missing_candle
    else if ltb b (a + interval)
    then err timeframe_alignment
    else validate_spacing interval (b ∷ ts)
validate_spacing interval ts = ok tt

abbrev pub is_empty : List Datetime → Bool
is_empty [] = true
is_empty (t ∷ ts) = false

-- `_validate_ordered_candles`, on the timestamps
unfoldable pub validate_ordered : List Datetime → Timeframe → Option (List Datetime) → Check
validate_ordered ordered tf expected = do
  raise_if (is_empty ordered) empty_candle_set
  raise_if (has_duplicates ordered) duplicate_timestamp
  validate_candle_alignment tf ordered
  elim expected [
    | some times ↦ raise_if (not (same_times ordered times)) session_calendar_mismatch
    | none ↦ validate_spacing (timeframe_duration tf) ordered
  ]

module _ {ℓ} {A : Type ℓ} (timestamp : A → Datetime) where
  -- Python's `sorted` is stable: an item goes in front of the first that is not less.
  unfoldable pub insert_sorted : A → List A → List A
  insert_sorted x [] = x ∷ []
  insert_sorted x (y ∷ ys) =
      if leb (timestamp x) (timestamp y) then x ∷ y ∷ ys else y ∷ insert_sorted x ys

  unfoldable pub sorted : List A → List A
  sorted [] = []
  sorted (x ∷ xs) = insert_sorted x (sorted xs)

  unfoldable pub normalize_candle_order : List A → Timeframe → Result MarketDataError (List A)
  normalize_candle_order candles tf =
      let ordered = sorted candles in validate_ordered (map timestamp ordered) tf none >> ok ordered

  unfoldable pub validate_candle_order :
      List A → Timeframe → Option (List Datetime) → Result MarketDataError (List A)
  validate_candle_order candles tf expected = do
    raise_if (is_out_of_order (map timestamp candles)) out_of_order_timestamp
    validate_ordered (map timestamp candles) tf expected
    ok candles
