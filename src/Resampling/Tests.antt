-- ===== src/Resampling/Tests.antt =====
-- Six one-minute candles, of which five make a five-minute candle.
use ai_trading_platform.Prelude.{ℕ, ◌+◌, ◌*◌, ◌≤◌, ◌≡◌, refl, List, [], ◌∷◌, ◌++◌, ok, All, arith}
use ai_trading_platform.Timeframe.{
  Datetime, one_minute, five_minutes, epoch, minute, timeframe_duration, timeframe_bucket_start,
  whole_seconds, float_margin,
}
use ai_trading_platform.Candle.{Candle, new_candle}
use ai_trading_platform.Normalize.Defs.{
  sorted, insert_sorted, normalize_candle_order, validate_ordered, has_duplicates,
  validate_candle_alignment, validate_spacing,
}
use ai_trading_platform.Structure.Sequences.{filter}
use ai_trading_platform.Resampling.Defs.{
  same_candles, add_candle, group_candles, expected_opens, highest, lowest, last_close,
  total_volume, derive_bucket, derive_buckets, resample_canonical_candles,
}
use ai_trading_platform.Resampling.Cutoff.{resample_ignores_future, resample_ends_by_cutoff}

abbrev bar : ℕ → Candle
bar n = record {
  timestamp = epoch + n * minute;
  open_price = 10 + n;
  high = 20 + n;
  low = 5 + n;
  close = 11 + n;
  volume = 1;
}

abbrev candles : List Candle
candles = bar 0 ∷ bar 1 ∷ bar 2 ∷ bar 3 ∷ bar 4 ∷ bar 5 ∷ []

abbrev cutoff : Datetime
cutoff = epoch + 6 * minute

abbrev five : Candle
five = record { timestamp = epoch; open_price = 10; high = 24; low = 5; close = 15; volume = 5 }

resampled_once : resample_canonical_candles candles one_minute five_minutes cutoff ≡ ok (five ∷ [])
unfolding resample_canonical_candles filter same_candles add_candle group_candles expected_opens
    highest lowest last_close total_volume derive_bucket derive_buckets new_candle sorted
    insert_sorted normalize_candle_order validate_ordered has_duplicates validate_candle_alignment
    validate_spacing timeframe_bucket_start whole_seconds float_margin
resampled_once = refl

resample_ends_by_cutoff_example :
    All (λ c. c.timestamp + timeframe_duration five_minutes ≤ cutoff) (five ∷ [])
resample_ends_by_cutoff_example =
    resample_ends_by_cutoff candles one_minute five_minutes cutoff (five ∷ []) resampled_once

resample_ignores_future_example :
    resample_canonical_candles (candles ++ bar 6 ∷ bar 6 ∷ []) one_minute five_minutes cutoff
    ≡ resample_canonical_candles candles one_minute five_minutes cutoff
resample_ignores_future_example =
    resample_ignores_future candles (bar 6 ∷ bar 6 ∷ []) one_minute five_minutes cutoff
      (omega arith, (omega arith, tt))
