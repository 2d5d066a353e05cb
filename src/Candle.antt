-- ===== src/Candle.antt =====
-- backend/app/schemas/candle.py. Prices and volumes are natural multiples of one unit that is
-- small enough for all the decimals of a run: the code below only compares and adds them.
use ai_trading_platform.Prelude.{
  ℕ, ◌≤◌, ◌<◌, ◌≡◌, ◌&&◌, arith, ltb, max, min, Result, ok, err, if◌then◌else◌,
}
use ai_trading_platform.Timeframe.{Datetime}

abbrev pub Price : Type 0
Price = ℕ

pub record Candle : Type 0 where
  pub timestamp : Datetime
  pub open_price : Price
  pub high : Price
  pub low : Price
  pub close : Price
  pub volume : ℕ

pub data CandleError : Type 0 where
  not_positive high_too_low low_too_high low_above_high : CandleError

-- The field bounds `gt=0`, then `validate_ohlc`.
unfoldable pub new_candle : Candle → Result CandleError Candle
new_candle c =
    if ltb 0 c.open_price && (ltb 0 c.high && (ltb 0 c.low && ltb 0 c.close))
    then if ltb c.high (max c.open_price c.close)
      then err high_too_low
      else if ltb (min c.open_price c.close) c.low
      then err low_too_high
      else if ltb c.high c.low
      then err low_above_high
      else ok c
    else err not_positive

-- What every constructed candle satisfies.
pub record IsCandle (c : Candle) : Type 0 where
  pub low_positive : 0 < c.low
  pub low_open : c.low ≤ c.open_price
  pub low_close : c.low ≤ c.close
  pub open_high : c.open_price ≤ c.high
  pub close_high : c.close ≤ c.high

pub new_candle-IsCandle : (c d : Candle) → new_candle c ≡ ok d → IsCandle d
unfolding new_candle
new_candle-IsCandle c d h = ground arith

pub new_candle-of_IsCandle : (c : Candle) → IsCandle c → new_candle c ≡ ok c
unfolding new_candle
new_candle-of_IsCandle c h = ground arith
