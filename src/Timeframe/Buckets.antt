-- ===== src/Timeframe/Buckets.antt =====
-- The buckets of backend/app/market_data/timeframes.py: the instants whose count of seconds a float
-- keeps, and those that it rounds.
use ai_trading_platform.Prelude.{
  ℕ, ◌+◌, ◌-◌, ◌*◌, ◌/◌, ◌%◌, ◌≤◌, ◌<◌, ◌≡◌, ◌∙◌, sym, refl, arith, Bool, true, false,
}
use ai_trading_platform.Timeframe.{
  Timeframe, one_minute, one_day, one_week, Datetime, Timedelta, epoch, timeframe_duration,
  timeframe_bucket_start, timeframe_bucket_end, second, whole_seconds, float_margin, epoch_bucket,
}

-- 2514-05-30T01:53:04Z, 2^34 seconds after 1970: the first instant of a second that a float rounds.
abbrev pub float_limit : Datetime
float_limit = epoch + 17179869184 * 1000000

whole_seconds-exact : (d : Timedelta) → d < 17179869184 * 1000000 → whole_seconds d ≡ d / second
unfolding whole_seconds float_margin
whole_seconds-exact d h = ground arith

whole_seconds-rounded :
    (d : Timedelta)
    → 17179869184 * 1000000 ≤ d
    → (d + 1) % second ≡ 0
    → whole_seconds d ≡ (d + 1) / second
unfolding whole_seconds float_margin
whole_seconds-rounded d h e = ground arith

epoch_bucket-exact :
    (t : Datetime) (n : ℕ)
    → epoch ≤ t
    → t < float_limit
    → epoch_bucket t n ≡ epoch + (t - epoch) / second / n * n * second
unfolding epoch_bucket
epoch_bucket-exact t n h b = ground (arith, whole_seconds-exact (t - epoch) (omega arith))

-- The boundary counted in whole microseconds.
abbrev exact_start : Datetime → Timeframe → Datetime
exact_start t one_day = t / 86400000000 * 86400000000
exact_start t one_week = t / 604800000000 * 604800000000
exact_start t tf = epoch + (t - epoch) / timeframe_duration tf * timeframe_duration tf

bucket_start-exact :
    (t : Datetime) (tf : Timeframe)
    → epoch ≤ t
    → t < float_limit
    → timeframe_bucket_start t tf ≡ exact_start t tf
unfolding timeframe_bucket_start
bucket_start-exact t one_day h b = refl
bucket_start-exact t one_week h b = omega arith
bucket_start-exact t one_minute h b = epoch_bucket-exact t 60 h b ∙ omega arith
bucket_start-exact t _ h b = epoch_bucket-exact t _ h b ∙ omega arith

pub minute_start-exact :
    (t : Datetime)
    → epoch ≤ t
    → t < float_limit
    → timeframe_bucket_start t one_minute ≡ t / 60000000 * 60000000
minute_start-exact t h b = bucket_start-exact t one_minute h b ∙ omega arith

exact_contains :
    (t : Datetime) (tf : Timeframe)
    → epoch ≤ t
    → (exact_start t tf ≤ t) × (t < exact_start t tf + timeframe_duration tf)
exact_contains t one_minute h = ground arith
exact_contains t _ h = ground arith

exact_unique :
    (s t : Datetime) (tf : Timeframe)
    → epoch ≤ s
    → exact_start s tf ≡ s
    → s ≤ t
    → t < s + timeframe_duration tf
    → exact_start t tf ≡ s
exact_unique s t one_minute h a l u = omega arith
exact_unique s t _ h a l u = omega arith

exact_nested :
    (t : Datetime) (a b : Timeframe)
    → epoch ≤ t
    → timeframe_duration b % timeframe_duration a ≡ 0
    → exact_start (exact_start t a) b ≡ exact_start t b
exact_nested t one_minute one_minute h e = ground arith
exact_nested t _ _ h e = ground arith

-- From 1970 on and before 2514-05-30T01:53:04Z, an instant lies in its bucket: not before its start,
-- and before its end.
pub bucket_contains :
    (t : Datetime) (tf : Timeframe)
    → epoch ≤ t
    → t < float_limit
    → (timeframe_bucket_start t tf ≤ t) × (t < timeframe_bucket_end t tf)
unfolding timeframe_bucket_end
bucket_contains t tf h b = rw (bucket_start-exact t tf h b) (exact_contains t tf h)

-- From 1970 on, an instant that opens a bucket is the start of every instant in the bucket that is
-- before 2514-05-30T01:53:04Z: the buckets of a timeframe do not overlap.
pub bucket_unique :
    (s t : Datetime) (tf : Timeframe)
    → epoch ≤ s
    → timeframe_bucket_start s tf ≡ s
    → s ≤ t
    → t < float_limit
    → t < s + timeframe_duration tf
    → timeframe_bucket_start t tf ≡ s
bucket_unique s t tf h a l b u =
    bucket_start-exact t tf (omega arith) b
    ∙ exact_unique s t tf h (sym (bucket_start-exact s tf h (omega arith)) ∙ a) l u

-- The buckets nest: from 1970 on and before 2514-05-30T01:53:04Z, if the duration of `a` divides that of `b`, then the bucket of
-- `b` is the same for an instant and for the start of its bucket of `a`.
pub bucket_start_nested :
    (t : Datetime) (a b : Timeframe)
    → epoch ≤ t
    → t < float_limit
    → timeframe_duration b % timeframe_duration a ≡ 0
    → timeframe_bucket_start (timeframe_bucket_start t a) b ≡ timeframe_bucket_start t b
unfolding timeframe_bucket_start
bucket_start_nested t one_week one_week h l e = omega arith
bucket_start_nested t one_week _ h l e = absurd (omega (arith, e))
bucket_start_nested t a b h l e =
    rw (bucket_start-exact t a h l, bucket_start-exact t b h l)
      (bucket_start-exact (exact_start t a) b (omega arith)
          (omega (arith, (exact_contains t a h).0))
        ∙ exact_nested t a b h e)

abbrev pub is_intraday : Timeframe → Bool
is_intraday one_day = false
is_intraday one_week = false
is_intraday tf = true

-- In the last second before 1970, and not on it, every intraday bucket starts after the instant
-- that it is computed from: `int` rounds the negative timestamp up to 0.
pub bucket_start_before_epoch :
    (t : Datetime) (tf : Timeframe)
    → is_intraday tf ≡ true
    → epoch < t + second
    → t < epoch
    → (timeframe_bucket_start t tf ≡ epoch) × (t < timeframe_bucket_start t tf)
unfolding timeframe_bucket_start epoch_bucket
bucket_start_before_epoch t one_minute i l u =
    ground (arith, whole_seconds-exact (epoch - t) (omega arith))
bucket_start_before_epoch t _ i l u = ground (arith, whole_seconds-exact (epoch - t) (omega arith))

-- From 2514-05-30T01:53:04Z on and before the year 10000, the microsecond before an intraday bucket
-- opens is given the bucket that it is not in yet: a float rounds its timestamp up.
pub bucket_start_rounds_up :
    (t : Datetime) (tf : Timeframe)
    → is_intraday tf ≡ true
    → float_limit ≤ t
    → t < 3652059 * 86400000000
    → (t + 1 - epoch) % timeframe_duration tf ≡ 0
    → timeframe_bucket_start t tf ≡ t + 1
unfolding timeframe_bucket_start epoch_bucket
bucket_start_rounds_up t one_minute i l u e =
    ground (arith, whole_seconds-rounded (t - epoch) (omega arith) (omega arith))
bucket_start_rounds_up t _ i l u e =
    ground (arith, whole_seconds-rounded (t - epoch) (omega arith) (omega arith))
