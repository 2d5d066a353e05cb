-- ===== src/Gaps/Total.antt =====
-- The analysis returns, with zones that follow the state machine.
use ai_trading_platform.Prelude.{
  ℕ, ◌+◌, ◌≤◌, ◌<◌, ◌≡◌, refl, ◌&&◌, ◌||◌, not, Option, none, some, List, [], ◌∷◌, ◌++◌, ltb, All,
  length, arith, ok, Bool-cases, inl, inr,
}
use ai_trading_platform.Timeframe.{Datetime, Timeframe, timeframe_duration}
use ai_trading_platform.Candle.{Candle, IsCandle}
use ai_trading_platform.Gaps.Schema.{
  GapDirection, bullish, bearish, FvgConfig, GapZone, new_gap_zone,
}
use ai_trading_platform.Gaps.Zones.{ZoneState, new_fvg}
use ai_trading_platform.Gaps.Analysis.{
  AtrPoint, Cell, Scan, form, form_gap, formed_cells, update_cell, update_cells, scan_candle,
  scan_candles, start_scan, to_schema, public_zones, FvgAnalysisResult, validate_inputs,
  analyze_fvg, cutoff_of, minimum_gap, is_gap, goes_with, atr_missing,
}
use ai_trading_platform.Gaps.Paths.{IsPath, IsZone, update_zone-IsZone}

IsCandleIfAny : Option Candle → Type 0
IsCandleIfAny none = Unit
IsCandleIfAny (some c) = IsCandle c

abbrev AreCells : ℕ → List Cell → Type 0
AreCells unit = All (λ c. IsZone unit c.zone)

AreCells-append :
    (unit : ℕ) (cs ds : List Cell) → AreCells unit cs → AreCells unit ds → AreCells unit (cs ++ ds)
AreCells-append unit [] ds a b = b
AreCells-append unit (c ∷ cs) ds a b = (a.0, AreCells-append unit cs ds a.1 b)

new_fvg-IsZone :
    (unit : ℕ) (d : GapDirection) (lower upper : ℕ) (first middle bar : Candle) (index : ℕ)
    (t : Datetime)
    → 0 < lower
    → lower < upper
    → IsZone unit (new_fvg d lower upper first middle bar index t)
unfolding new_fvg
new_fvg-IsZone unit d lower upper first middle bar index t positive ordered = record {
  path = (refl, refl, refl);
  positive = positive;
  ordered = ordered;
  bounded = omega arith;
  origin = refl;
  untouched = λ h. refl;
  touched = λ h k. cc;
}

high_positive : (c : Candle) → IsCandle c → 0 < c.high
high_positive c i = omega (arith, i.low_positive, i.low_close, i.close_high)

module _ (unit : ℕ) (divide : ℕ → ℕ → ℕ) (atr_share : ℕ → ℕ → ℕ)
    (shares : (part whole : ℕ) → part ≤ whole → divide part whole ≤ unit) where
  form_gap-AreCells :
      (config : FvgConfig) (atr : Option ℕ) (first middle bar : Candle) (index : ℕ) (t : Datetime)
      → IsCandle first
      → IsCandle bar
      → AreCells unit (formed_cells (form_gap atr_share config atr first middle bar index t))
  unfolding form_gap
  form_gap-AreCells config atr first middle bar index t f b =
      let minimum = minimum_gap atr_share config atr in
      let up =
        is_gap first.high bar.low minimum && goes_with config middle.open_price middle.close in
      let down =
        is_gap bar.high first.low minimum && goes_with config middle.close middle.open_price in
      elim (Bool-cases (atr_missing config atr)) [
        | inl missing ↦ rw (form_gap, missing) tt
        | inr ready ↦ elim (Bool-cases (up && down)) [
          | inl both ↦ rw (form_gap, ready, both) tt
          | inr one ↦ elim (Bool-cases up) [
            | inl rises ↦
                rw (form_gap, ready, one, rises)
                  (
                    new_fvg-IsZone unit bullish first.high bar.low first middle bar index t
                        (high_positive first f) (ground (arith, rises)),
                    tt,
                  )
            | inr not_up ↦ elim (Bool-cases down) [
              | inl falls ↦
                  rw (form_gap, ready, one, not_up, falls)
                    (
                      new_fvg-IsZone unit bearish bar.high first.low first middle bar index t
                          (high_positive bar b) (ground (arith, falls)),
                      tt,
                    )
              | inr neither ↦ rw (form_gap, ready, one, not_up, neither) tt
            ]
          ]
        ]
      ]

  form-AreCells :
      (config : FvgConfig) (atr : Option ℕ) (first middle : Option Candle) (bar : Candle)
      (index : ℕ) (t : Datetime)
      → IsCandleIfAny first
      → IsCandle bar
      → AreCells unit (formed_cells (form atr_share config atr first middle bar index t))
  unfolding form IsCandleIfAny
  form-AreCells config atr none middle bar index t f b = tt
  form-AreCells config atr (some first) none bar index t f b = tt
  form-AreCells config atr (some first) (some middle) bar index t f b =
      form_gap-AreCells config atr first middle bar index t f b

  update_cells-AreCells :
      (config : FvgConfig) (bar : Candle) (index : ℕ) (t : Datetime) (cs : List Cell)
      → AreCells unit cs
      → AreCells unit (update_cells unit divide atr_share config bar index t cs).0
        × AreCells unit (update_cells unit divide atr_share config bar index t cs).1
  unfolding update_cells update_cell
  update_cells-AreCells config bar index t [] a = (tt, tt)
  update_cells-AreCells config bar index t (c ∷ cs) a =
      let rest = update_cells-AreCells config bar index t cs a.1 in
      elim (Bool-cases (not c.listed || ltb bar.timestamp c.zone.since)) [
        | inl skipped ↦ rw (update_cells, update_cell, skipped) ((a.0, rest.0), rest.1)
        | inr seen ↦
            let one = update_zone-IsZone unit divide shares config bar index t c.zone a.0 in
            rw (update_cells, update_cell, seen)
              ((one.0, rest.0), AreCells-append unit _ _ one.1 rest.1)
      ]

  record IsScan (s : Scan) : Type 0 where
    cells : AreCells unit s.cells
    first : IsCandleIfAny s.first
    middle : IsCandleIfAny s.middle

  scan_candles-AreCells :
      (config : FvgConfig) (duration : ℕ) (candles : List Candle) (s : Scan)
      → All IsCandle candles
      → IsScan s
      → AreCells unit (scan_candles unit divide atr_share config duration candles s).cells
  unfolding scan_candles scan_candle IsCandleIfAny
  scan_candles-AreCells config duration [] s valid i = i.cells
  scan_candles-AreCells config duration (c ∷ cs) s valid i =
      let t = c.timestamp + duration in
      let new = form-AreCells config s.atr_at_open s.first s.middle c s.index t i.first valid.0 in
      let updated =
        update_cells-AreCells config c s.index t _ (AreCells-append unit s.cells _ i.cells new) in
      scan_candles-AreCells config duration cs
        (scan_candle unit divide atr_share config duration c s) valid.1
        (record {
          cells = AreCells-append unit _ _ updated.0 updated.1;
          first = i.middle;
          middle = valid.0;
        })

abbrev public_of : List Cell → List GapZone
public_of [] = []
public_of (c ∷ cs) = to_schema c.zone ∷ public_of cs

new_gap_zone-of_IsZone :
    (unit : ℕ) (z : ZoneState) → IsZone unit z → new_gap_zone unit (to_schema z) ≡ ok (to_schema z)
unfolding new_gap_zone
new_gap_zone-of_IsZone unit z i = ground (arith, i.positive, i.ordered, i.bounded, i.origin)

public_zones-ok :
    (unit : ℕ) (cs : List Cell) → AreCells unit cs → public_zones unit cs ≡ ok (public_of cs)
unfolding public_zones
public_zones-ok unit [] a = refl
public_zones-ok unit (c ∷ cs) a =
    rw (public_zones, new_gap_zone-of_IsZone unit c.zone a.0, public_zones-ok unit cs a.1) refl

public_of-paths :
    (unit : ℕ) (cs : List Cell)
    → AreCells unit cs
    → All (λ z. IsPath none z.lifecycle (some z.lifecycle_state)) (public_of cs)
public_of-paths unit [] a = tt
public_of-paths unit (c ∷ cs) a = (a.0.path, public_of-paths unit cs a.1)

-- On candles that pass the validator, and inputs that pass the checks, the analysis returns, with a
-- decimal division that gives no more than the whole for a part of it. The events of every zone of the
-- result lead from its creation to its state by transitions of the state machine, so that none follows
-- a terminal state.
pub gap_lifecycles_follow :
    (unit : ℕ) (divide atr_share : ℕ → ℕ → ℕ)
    (shares : (part whole : ℕ) → part ≤ whole → divide part whole ≤ unit) (candles : List Candle)
    (timeframe : Timeframe) (config : FvgConfig) (atr_result : Option (List AtrPoint))
    → All IsCandle candles
    → validate_inputs candles timeframe config atr_result ≡ ok tt
    → (result : FvgAnalysisResult) × (analyze_fvg unit divide atr_share candles timeframe config
          atr_result
        ≡ ok result)
      × All (λ z. IsPath none z.lifecycle (some z.lifecycle_state)) result.zones
unfolding analyze_fvg IsCandleIfAny
gap_lifecycles_follow unit divide atr_share shares candles timeframe config atr_result valid
      checked =
    let cells =
      scan_candles-AreCells unit divide atr_share shares config (timeframe_duration timeframe)
        candles (start_scan atr_result) valid (record { cells = tt; first = tt; middle = tt }) in
    let scan =
      scan_candles unit divide atr_share config (timeframe_duration timeframe) candles
        (start_scan atr_result) in
    let result : FvgAnalysisResult = record {
      candle_count = length candles;
      data_cutoff_at = cutoff_of candles (timeframe_duration timeframe);
      zones = public_of scan.cells;
      gap_rejections = scan.rejections;
    } in
    (
      result,
      rw (analyze_fvg, checked, public_zones-ok unit scan.cells cells) refl,
      public_of-paths unit scan.cells cells,
    )
