-- ===== src/Timeframe/Tests.antt =====
-- Buckets at known instants.
use ai_trading_platform.Prelude.{◌+◌, ◌-◌, ◌*◌, ◌≤◌, ◌<◌, ◌≡◌, refl, arith}
use ai_trading_platform.Timeframe.{
  one_minute, five_minutes, one_hour, one_week, Datetime, minute, second, day, epoch,
  timeframe_bucket_start, timeframe_bucket_end, whole_seconds, float_margin,
}
use ai_trading_platform.Timeframe.Buckets.{
  bucket_contains, bucket_unique, bucket_start_nested, bucket_start_before_epoch,
  bucket_start_rounds_up,
}

-- 1970-01-07T01:02:03Z, a Wednesday.
abbrev instant : Datetime
instant = epoch + 6 * day + 3723 * second

-- Its week opened on Monday 1970-01-05.
week_of_instant : timeframe_bucket_start instant one_week ≡ epoch + 4 * day
unfolding timeframe_bucket_start
week_of_instant = refl

bucket_contains_example :
    (timeframe_bucket_start instant five_minutes ≤ instant)
    × (instant < timeframe_bucket_end instant five_minutes)
bucket_contains_example = bucket_contains instant five_minutes (omega arith) (omega arith)

bucket_unique_example : timeframe_bucket_start (epoch + 61 * minute) one_hour ≡ epoch + 60 * minute
unfolding timeframe_bucket_start whole_seconds float_margin
bucket_unique_example =
    bucket_unique (epoch + 60 * minute) (epoch + 61 * minute) one_hour (omega arith) refl
      (omega arith) (omega arith) (omega arith)

bucket_start_nested_example :
    timeframe_bucket_start (timeframe_bucket_start instant five_minutes) one_hour
    ≡ timeframe_bucket_start instant one_hour
bucket_start_nested_example =
    bucket_start_nested instant five_minutes one_hour (omega arith) (omega arith) refl

abbrev last_second : Datetime
last_second = 62135596799500000

bucket_start_before_epoch_example :
    (timeframe_bucket_start last_second one_minute ≡ epoch)
    × (last_second < timeframe_bucket_start last_second one_minute)
bucket_start_before_epoch_example =
    bucket_start_before_epoch last_second one_minute refl (omega arith) (omega arith)

-- 2541-01-01T23:59:59.999999Z
abbrev before_midnight : Datetime
before_midnight = epoch + 18019152000 * second - 1

bucket_start_rounds_up_example :
    timeframe_bucket_start before_midnight one_hour ≡ epoch + 18019152000 * second
bucket_start_rounds_up_example =
    bucket_start_rounds_up before_midnight one_hour refl (omega arith) (omega arith) refl
