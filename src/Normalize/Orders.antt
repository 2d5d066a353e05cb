-- ===== src/Normalize/Orders.antt =====
-- The two entry points of backend/app/market_data/normalization.py and the rows they accept.
use mathlib.Core.List.{Perm}
use mathlib.Core.Path.{subst}
use ai_trading_platform.Prelude.{
  ◌≡◌, ◌↔◌, Option, none, some, List, [], ◌∷◌, map, arith, ok, ◌≤◌, >>=-returned,
}
use ai_trading_platform.Timeframe.{Timeframe, Datetime, Timedelta, timeframe_duration}
use ai_trading_platform.Normalize.Defs.{
  validate_ordered, sorted, normalize_candle_order, validate_candle_order,
}
use ai_trading_platform.Normalize.Sorting.{NotBefore, Ascending, sorted-perm, sorted-of_Ascending}
use ai_trading_platform.Normalize.Grid.{
  IsGrid, IsSpaced, in_order-of_IsSpaced, validate_ordered-of_IsGrid, IsGrid-of_ok,
}
use ai_trading_platform.Normalize.Sessions.{
  IsAccepted, in_order-of_IsIncreasing, validate_ordered-of_IsSession, IsSession-of_ok,
}

module _ {ℓ} {A : Type ℓ} (timestamp : A → Datetime) where
  -- Provider rows are accepted, and come back as they are, exactly when their timestamps, in the order
  -- supplied, are not empty and on bucket starts and, without a session calendar, one duration apart,
  -- or, with one, increasing and just the calendar's instants.
  pub validate_candle_order-iff-IsAccepted :
      (candles : List A) (tf : Timeframe) (expected : Option (List Datetime))
      → (validate_candle_order timestamp candles tf expected ≡ ok candles)
        ↔ IsAccepted tf expected (map timestamp candles)
  unfolding validate_candle_order
  validate_candle_order-iff-IsAccepted candles tf none = (
    (λ h. IsGrid-of_ok (map timestamp candles) tf (ground arith)),
    λ g. ground (
      arith,
      in_order-of_IsSpaced (timeframe_duration tf) (map timestamp candles) g.spaced,
      validate_ordered-of_IsGrid (map timestamp candles) tf g,
    ),
  )
  validate_candle_order-iff-IsAccepted candles tf (some times) = (
    (λ h. IsSession-of_ok (map timestamp candles) times tf (ground arith) (ground arith)),
    λ s. ground (
      arith,
      in_order-of_IsIncreasing (map timestamp candles) s.increasing,
      validate_ordered-of_IsSession (map timestamp candles) times tf s,
    ),
  )

  -- A normalized list is a permutation of the candles given, and its timestamps are a grid.
  pub normalize_candle_order-ok :
      (candles ordered : List A) (tf : Timeframe)
      → normalize_candle_order timestamp candles tf ≡ ok ordered
      → Perm ordered candles × IsGrid tf (map timestamp ordered)
  unfolding normalize_candle_order
  normalize_candle_order-ok candles ordered tf h =
      let result = sorted timestamp candles in
      let (u, valid, same) =
        >>=-returned (validate_ordered (map timestamp result) tf none) (λ _. ok result) h in
      let e : result ≡ ordered = cc in
      (
        subst (λ l. Perm l candles) e (sorted-perm timestamp candles),
        subst (λ l. IsGrid tf (map timestamp l)) e (IsGrid-of_ok (map timestamp result) tf (cc)),
      )

  NotBefore-of_IsSpaced :
      (d : Timedelta) (t : Datetime) (xs : List A)
      → (x : A) → t ≤ timestamp x
      → IsSpaced d (map timestamp (x ∷ xs))
      → NotBefore timestamp t (x ∷ xs)
  NotBefore-of_IsSpaced d t [] x l h = (l, tt)
  NotBefore-of_IsSpaced d t (y ∷ ys) x l h = (l, NotBefore-of_IsSpaced d t ys y (omega arith) h.1)

  Ascending-of_IsSpaced :
      (d : Timedelta) (xs : List A) → IsSpaced d (map timestamp xs) → Ascending timestamp xs
  Ascending-of_IsSpaced d [] h = tt
  Ascending-of_IsSpaced d (x ∷ []) h = (tt, tt)
  Ascending-of_IsSpaced d (x ∷ y ∷ ys) h = (
    NotBefore-of_IsSpaced d (timestamp x) ys y (omega arith) h.1,
    Ascending-of_IsSpaced d (y ∷ ys) h.1,
  )

  -- A grid is normal already: the candles come back in the same order.
  pub normalize_candle_order-of_IsGrid :
      (candles : List A) (tf : Timeframe)
      → IsGrid tf (map timestamp candles)
      → normalize_candle_order timestamp candles tf ≡ ok candles
  unfolding normalize_candle_order
  normalize_candle_order-of_IsGrid candles tf g =
      rw
        (sorted-of_Ascending timestamp candles
          (Ascending-of_IsSpaced (timeframe_duration tf) candles g.spaced))
        (rw (validate_ordered-of_IsGrid (map timestamp candles) tf g))
