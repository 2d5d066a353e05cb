-- ===== src/Normalize/Tests.antt =====
-- Two candles, given in the wrong order and in the right one.
use mathlib.Core.List.{Perm}
use ai_trading_platform.Prelude.{◌+◌, ◌*◌, ◌≡◌, ◌↔◌, refl, none, some, List, [], ◌∷◌, map, ok, err}
use ai_trading_platform.Timeframe.{
  one_minute, Datetime, minute, epoch, timeframe_bucket_start, whole_seconds, float_margin,
}
use ai_trading_platform.Normalize.Defs.{
  out_of_order_timestamp, normalize_candle_order, validate_candle_order, sorted, insert_sorted,
  validate_ordered, has_duplicates, validate_candle_alignment, validate_spacing, is_out_of_order,
}
use ai_trading_platform.Normalize.Grid.{IsGrid}
use ai_trading_platform.Normalize.Sessions.{IsAccepted}
use ai_trading_platform.Normalize.Orders.{
  validate_candle_order-iff-IsAccepted, normalize_candle_order-ok, normalize_candle_order-of_IsGrid,
}

abbrev stamp : Datetime → Datetime
stamp t = t

abbrev in_order : List Datetime
in_order = epoch ∷ (epoch + minute) ∷ []

abbrev reversed : List Datetime
reversed = (epoch + minute) ∷ epoch ∷ []

in_order-IsGrid : IsGrid one_minute (map stamp in_order)
unfolding timeframe_bucket_start whole_seconds float_margin
in_order-IsGrid = record { nonempty = λ e. cc; aligned = (refl, (refl, tt)); spaced = (refl, tt) }

reversed_refused : validate_candle_order stamp reversed one_minute none ≡ err out_of_order_timestamp
unfolding validate_candle_order is_out_of_order
reversed_refused = refl

reversed_normalized : normalize_candle_order stamp reversed one_minute ≡ ok in_order
unfolding normalize_candle_order sorted insert_sorted validate_ordered has_duplicates
    validate_candle_alignment validate_spacing timeframe_bucket_start whole_seconds float_margin
reversed_normalized = refl

-- A session that leaves out two minutes.
abbrev session : List Datetime
session = epoch ∷ (epoch + 3 * minute) ∷ []

validate_candle_order-iff-IsAccepted_example :
    (validate_candle_order stamp session one_minute (some session) ≡ ok session)
    ↔ IsAccepted one_minute (some session) (map stamp session)
validate_candle_order-iff-IsAccepted_example =
    validate_candle_order-iff-IsAccepted stamp session one_minute (some session)

normalize_candle_order-ok_example : Perm in_order reversed × IsGrid one_minute (map stamp in_order)
normalize_candle_order-ok_example =
    normalize_candle_order-ok stamp reversed in_order one_minute reversed_normalized

normalize_candle_order-of_IsGrid_example :
    normalize_candle_order stamp in_order one_minute ≡ ok in_order
normalize_candle_order-of_IsGrid_example =
    normalize_candle_order-of_IsGrid stamp in_order one_minute in_order-IsGrid
