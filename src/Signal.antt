-- ===== src/Signal.antt =====
-- backend/app/schemas/signal.py: the decision of a signal, its entry zone, and a signal's levels.
use ai_trading_platform.Prelude.{Bool, true, false, ◌&&◌, ltb, leb, if◌then◌else◌}
use ai_trading_platform.Candle.{Price}

pub data SignalDecision : Type 0 where
  long short no_trade : SignalDecision

abbrev pub is_long : SignalDecision → Bool
is_long long = true
is_long d = false

abbrev pub is_no_trade : SignalDecision → Bool
is_no_trade no_trade = true
is_no_trade d = false

-- `validate_bounds` asks for `low ≤ high`.
pub record EntryZone : Type 0 where
  pub low : Price
  pub high : Price

-- The order of the levels that `validate_trade_levels` asks of a direction, here and in
-- backend/app/schemas/signal_lifecycle.py.
abbrev pub levels_ordered : SignalDecision → EntryZone → Price → Price → Bool
levels_ordered d zone take_profit stop_loss =
    if is_long d
    then ltb stop_loss zone.low && (leb zone.low zone.high && ltb zone.high take_profit)
    else ltb take_profit zone.low && (leb zone.low zone.high && ltb zone.high stop_loss)
