-- ===== src/Structure/Stability.antt =====
-- Confirmed swings do not change when candles arrive.
use ai_trading_platform.Prelude.{
  ◌≤◌, ◌<◌, ◌≡◌, ap, ◌∙◌, sym, refl, false, none, some, List, [], ◌∷◌, ◌++◌, length, min, leb, ltb,
  arith, length-append, Bool-cases, inl, inr,
}
use mathlib.Core.Path.{subst}
use ai_trading_platform.Timeframe.{Timeframe, Timedelta, timeframe_duration}
use ai_trading_platform.Candle.{Candle}
use ai_trading_platform.Structure.Schema.{SwingKind, high, low, MarketStructureConfig}
use ai_trading_platform.Structure.Sequences.{
  take, Extends, Extends-nil, Extends-append, take-append,
}
use ai_trading_platform.Structure.Swings.{
  Found, window_swing, pivot_swing, detect_from, confirmed_of, detect_swings,
}

confirmed_of-append : (xs ys : Found) → confirmed_of (xs ++ ys) ≡ confirmed_of xs ++ confirmed_of ys
unfolding confirmed_of
confirmed_of-append [] ys = refl
confirmed_of-append ((c, none) ∷ xs) ys = confirmed_of-append xs ys
confirmed_of-append ((c, some s) ∷ xs) ys = ap (λ l. s ∷ l) (confirmed_of-append xs ys)

module _ (config : MarketStructureConfig) (duration : Timedelta) where
  -- A pivot with its full window has the same outcome whatever follows.
  pivot_swing-append :
      (before : List Candle) (pivot : Candle) (rest more : List Candle) (kind : SwingKind)
      → config.swing_right_bars ≤ length rest
      → pivot_swing config duration before pivot (rest ++ more) kind
        ≡ pivot_swing config duration before pivot rest kind
  unfolding pivot_swing
  pivot_swing-append before pivot rest more kind h =
      let right = take-append config.swing_right_bars rest more h in
      let enough : min config.swing_right_bars (length rest) ≡ config.swing_right_bars =
        omega (arith, h) in
      let enough_all : min config.swing_right_bars (length (rest ++ more))
          ≡ config.swing_right_bars =
        omega (arith, h, length-append rest more) in
      ap (λ n. window_swing config duration before pivot n (take n (rest ++ more)) kind) enough_all
      ∙ (ap (λ xs. window_swing config duration before pivot config.swing_right_bars xs kind) right
          ∙ sym (ap (λ n. window_swing config duration before pivot n (take n rest) kind) enough))

  -- A pivot without its full window is not confirmed.
  pivot_swing-pending :
      (before : List Candle) (pivot : Candle) (rest : List Candle) (kind : SwingKind)
      → length rest < config.swing_right_bars
      → confirmed_of (pivot_swing config duration before pivot rest kind) ≡ []
  unfolding pivot_swing window_swing confirmed_of
  pivot_swing-pending before pivot rest kind h = ground (arith, h)

  -- The confirmed swings of a pivot with enough candles before it, then the later ones.
  detect_from-confirmed :
      (before : List Candle) (pivot : Candle) (rest : List Candle)
      → ltb (length before) config.swing_left_bars ≡ false
      → confirmed_of (detect_from config duration before (pivot ∷ rest))
        ≡ confirmed_of (pivot_swing config duration before pivot rest high)
          ++ (confirmed_of (pivot_swing config duration before pivot rest low)
              ++ confirmed_of (detect_from config duration (before ++ pivot ∷ []) rest))
  unfolding detect_from
  detect_from-confirmed before pivot rest many = rw many (
      confirmed_of-append (pivot_swing config duration before pivot rest high) _
      ∙ ap (λ xs. confirmed_of (pivot_swing config duration before pivot rest high) ++ xs)
          (confirmed_of-append (pivot_swing config duration before pivot rest low) _))

  detect_from-pending :
      (before cs : List Candle)
      → length cs ≤ config.swing_right_bars
      → confirmed_of (detect_from config duration before cs) ≡ []
  unfolding detect_from confirmed_of
  detect_from-pending before [] h = refl
  detect_from-pending before (pivot ∷ rest) h =
      let later = detect_from-pending (before ++ pivot ∷ []) rest (omega (arith, h)) in
      let a = pivot_swing-pending before pivot rest high (omega (arith, h)) in
      let b = pivot_swing-pending before pivot rest low (omega (arith, h)) in
      elim (Bool-cases (ltb (length before) config.swing_left_bars)) [
        | inl few ↦ rw few later
        | inr many ↦ rw (detect_from-confirmed before pivot rest many, a, b) later
      ]

  detect_from-Extends :
      (before cs more : List Candle)
      → Extends
          (confirmed_of (detect_from config duration before cs))
          (confirmed_of (detect_from config duration before (cs ++ more)))
  unfolding detect_from confirmed_of
  detect_from-Extends before [] more = Extends-nil _
  detect_from-Extends before (pivot ∷ rest) more =
      let later = detect_from-Extends (before ++ pivot ∷ []) rest more in
      elim (Bool-cases (ltb (length before) config.swing_left_bars)) [
        | inl few ↦ rw few later
        | inr many ↦ elim (Bool-cases (leb config.swing_right_bars (length rest))) [
          | inl full ↦
              let same : (kind : SwingKind)
                  → pivot_swing config duration before pivot (rest ++ more) kind
                    ≡ pivot_swing config duration before pivot rest kind =
                λ kind. pivot_swing-append before pivot rest more kind (ground (arith, full)) in
              rw
                (
                  detect_from-confirmed before pivot rest many,
                  detect_from-confirmed before pivot (rest ++ more) many,
                  same high,
                  same low,
                )
                (Extends-append _ _ _ (Extends-append _ _ _ later))
          | inr short ↦
              let none_yet = detect_from-pending before (pivot ∷ rest) (ground (arith, short)) in
              subst
                (λ xs.
                  Extends xs
                    (confirmed_of (detect_from config duration before (pivot ∷ rest ++ more))))
                (sym none_yet) (Extends-nil _)
        ]
      ]

-- No repainting: candles that arrive later add confirmed swings at the end and change none.
pub detect_swings-Extends :
    (candles more : List Candle) (timeframe : Timeframe) (config : MarketStructureConfig)
    → Extends
        (detect_swings candles timeframe config).1
        (detect_swings (candles ++ more) timeframe config).1
unfolding detect_swings
detect_swings-Extends candles more timeframe config =
    detect_from-Extends config (timeframe_duration timeframe) [] candles more
