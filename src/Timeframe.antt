-- ===== src/Timeframe.antt =====
-- backend/app/schemas/types.py (Timeframe) and backend/app/market_data/timeframes.py.
-- An aware datetime is its instant in UTC, counted in microseconds from 0001-01-01T00:00Z, the
-- least instant of Python's datetime and a Monday; a timedelta is a number of microseconds. The
-- upper bound of datetime (year 9999) is not modelled; the rounding of `timestamp()` to a float is
-- that of the instants up to it.
pub mod Buckets
mod Tests
use ai_trading_platform.Prelude.{ℕ, ◌+◌, ◌-◌, ◌*◌, ◌/◌, ◌%◌, if◌then◌else◌, leb, ltb}

pub data Timeframe : Type 0 where
  one_minute three_minutes five_minutes fifteen_minutes thirty_minutes : Timeframe
  one_hour two_hours four_hours one_day one_week : Timeframe

abbrev pub Datetime : Type 0
Datetime = ℕ

abbrev pub Timedelta : Type 0
Timedelta = ℕ

abbrev pub second : Timedelta
second = 1000000

abbrev pub minute : Timedelta
minute = 60000000

abbrev pub day : Timedelta
day = 86400000000

-- 1970-01-01T00:00Z: `date(1970, 1, 1).toordinal() - 1` days
abbrev pub epoch : Datetime
epoch = 719162 * 86400000000

-- `TIMEFRAME_DURATIONS`
abbrev pub timeframe_duration : Timeframe → Timedelta
timeframe_duration one_minute = 60000000
timeframe_duration three_minutes = 180000000
timeframe_duration five_minutes = 300000000
timeframe_duration fifteen_minutes = 900000000
timeframe_duration thirty_minutes = 1800000000
timeframe_duration one_hour = 3600000000
timeframe_duration two_hours = 7200000000
timeframe_duration four_hours = 14400000000
timeframe_duration one_day = 86400000000
timeframe_duration one_week = 604800000000

pub timeframe_milliseconds : Timeframe → ℕ
timeframe_milliseconds tf = timeframe_duration tf / 1000

-- `.replace(hour=0, minute=0, second=0, microsecond=0)`
abbrev pub start_of_day : Datetime → Datetime
start_of_day t = t / day * day

-- `isoweekday() - 1`: Monday is 0
abbrev pub weekday : Datetime → ℕ
weekday t = t / day % 7

-- The part of a second before a whole number of seconds above `s` that a float does not tell from it.
-- Floats from 2^k up to 2^(k+1) are 2^(k-52) apart, and half of that, with the tie, rounds up: one
-- second divided by 2^(53-k). That is less than a microsecond below 2^34 seconds, and no datetime is
-- 2^38 seconds or more from 1970.
unfoldable pub float_margin : ℕ → Timedelta
float_margin s =
    if ltb s 17179869184
    then 0
    else if ltb s 34359738368
    then second / 524288
    else if ltb s 68719476736
    then second / 262144
    else if ltb s 137438953472
    then second / 131072
    else second / 65536

-- `int(t.timestamp())` at a distance from 1970: the whole seconds of the float nearest to the
-- quotient of the microseconds and 10^6.
unfoldable pub whole_seconds : Timedelta → ℕ
whole_seconds d =
    let s = d / second in if leb ((s + 1) * second) (d + float_margin s) then s + 1 else s

-- `fromtimestamp((int(t.timestamp()) // seconds) * seconds)`. `int` truncates towards zero and
-- `//` rounds down, so before 1970 the count of whole seconds is rounded up and the bucket down.
unfoldable pub epoch_bucket : Datetime → ℕ → Datetime
epoch_bucket t seconds =
    if leb epoch t
    then epoch + whole_seconds (t - epoch) / seconds * seconds * second
    else epoch - (whole_seconds (epoch - t) + (seconds - 1)) / seconds * seconds * second

unfoldable pub timeframe_bucket_start : Datetime → Timeframe → Datetime
unfolding epoch_bucket
timeframe_bucket_start t one_day = start_of_day t
timeframe_bucket_start t one_week = start_of_day t - weekday (start_of_day t) * day
timeframe_bucket_start t tf = epoch_bucket t (timeframe_duration tf / second)

pub timeframe_bucket_end : Datetime → Timeframe → Datetime
timeframe_bucket_end t tf = timeframe_bucket_start t tf + timeframe_duration tf
