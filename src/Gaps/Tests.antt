-- ===== src/Gaps/Tests.antt =====
-- Five candles: a bullish gap forms on the third, is touched by the fourth and inverted by the fifth.
use ai_trading_platform.Prelude.{
  ℕ, ◌+◌, ◌*◌, ◌/◌, ◌≤◌, ◌≡◌, refl, min, true, none, some, List, [], ◌∷◌, ◌++◌, All, map, Result,
  ok, err, arith,
}
use ai_trading_platform.Timeframe.{one_minute, epoch, minute}
use ai_trading_platform.Candle.{Candle, IsCandle, new_candle, new_candle-IsCandle}
use ai_trading_platform.Gaps.Schema.{
  inverted, active, wick, GapState, FvgConfig, FvgError, new_gap_zone,
}
use ai_trading_platform.Gaps.Zones.{
  append_event, new_fvg, new_ifvg, invalidation_triggered, expire_zone, fill_zone,
  bar_fill_fraction, observe_fill, update_zone,
}
use ai_trading_platform.Gaps.Analysis.{
  FvgAnalysisResult, validate_ticks, validate_spacing, validate_inputs, atr_missing, form_gap, form,
  update_cell, update_cells, scan_candle, scan_candles, public_zones, analyze_fvg,
}
use ai_trading_platform.Gaps.Paths.{IsPath}
use ai_trading_platform.Gaps.Total.{gap_lifecycles_follow}
use ai_trading_platform.Gaps.Repaint.{ZonesGrow, gap_zones_only_grow}
use ai_trading_platform.Gaps.Archive.{analyze_archive, fvg_active_list_suffices}

abbrev percent : ℕ → ℕ → ℕ
percent part whole = min 100 (part * 100 / whole)

abbrev product : ℕ → ℕ → ℕ
product ratio atr = ratio * atr

percent_shares : (part whole : ℕ) → part ≤ whole → percent part whole ≤ 100
percent_shares part whole le = omega arith

abbrev config : FvgConfig
config = record {
  tick_size = 1;
  min_gap_ticks = 1;
  min_gap_atr_ratio = 0;
  require_middle_candle_direction = true;
  fill_basis = wick;
  full_fill_fraction = 100;
  max_age_bars = 10;
  max_retests = 5;
  ifvg_enabled = true;
  inversion_buffer_ticks = 0;
}

abbrev bar : (k open_price high low close : ℕ) → Candle
bar k o h l c = record {
  timestamp = epoch + k * minute;
  open_price = o;
  high = h;
  low = l;
  close = c;
  volume = 1;
}

abbrev candles : List Candle
candles = bar 0 8 10 8 10 ∷ bar 1 10 14 10 14 ∷ bar 2 14 15 13 15 ∷ bar 3 14 14 12 13 ∷ []

abbrev fifth : Candle
fifth = bar 4 12 12 8 9

valid : (c : Candle) → new_candle c ≡ ok c → IsCandle c
valid c h = new_candle-IsCandle c c h

candles_valid : All IsCandle candles
unfolding new_candle
candles_valid = (valid _ refl, (valid _ refl, (valid _ refl, (valid _ refl, tt))))

abbrev run : List Candle → Result FvgError FvgAnalysisResult
run cs = analyze_fvg 100 percent product cs one_minute config none

abbrev result_of : Result FvgError FvgAnalysisResult → FvgAnalysisResult
result_of (ok r) = r
result_of (err e) = record {
  candle_count = 0;
  data_cutoff_at = none;
  zones = [];
  gap_rejections = [];
}

abbrev states_of : FvgAnalysisResult → List GapState
states_of r = map (λ z. z.lifecycle_state) r.zones

inputs_pass : validate_inputs candles one_minute config none ≡ ok tt
unfolding validate_inputs validate_ticks validate_spacing
inputs_pass = refl

first_result : run candles ≡ ok (result_of (run candles))
unfolding analyze_fvg validate_inputs validate_ticks validate_spacing scan_candles scan_candle form
    form_gap atr_missing new_fvg update_cells update_cell update_zone invalidation_triggered
    observe_fill bar_fill_fraction fill_zone expire_zone append_event new_ifvg public_zones
    new_gap_zone
first_result = refl

later_result : run (candles ++ fifth ∷ []) ≡ ok (result_of (run (candles ++ fifth ∷ [])))
unfolding analyze_fvg validate_inputs validate_ticks validate_spacing scan_candles scan_candle form
    form_gap atr_missing new_fvg update_cells update_cell update_zone invalidation_triggered
    observe_fill bar_fill_fraction fill_zone expire_zone append_event new_ifvg public_zones
    new_gap_zone
later_result = refl

-- The gap is inverted; a bearish gap that the fifth candle forms and the inverse gap are active.
later_states : states_of (result_of (run (candles ++ fifth ∷ []))) ≡ inverted ∷ active ∷ active ∷ []
unfolding analyze_fvg validate_inputs validate_ticks validate_spacing scan_candles scan_candle form
    form_gap atr_missing new_fvg update_cells update_cell update_zone invalidation_triggered
    observe_fill bar_fill_fraction fill_zone expire_zone append_event new_ifvg public_zones
    new_gap_zone
later_states = refl

gap_lifecycles_follow_example :
    (result : FvgAnalysisResult) × (run candles ≡ ok result)
    × All (λ z. IsPath none z.lifecycle (some z.lifecycle_state)) result.zones
gap_lifecycles_follow_example =
    gap_lifecycles_follow 100 percent product percent_shares candles one_minute config none
      candles_valid inputs_pass

gap_zones_only_grow_example :
    ZonesGrow (result_of (run candles)).zones (result_of (run (candles ++ fifth ∷ []))).zones
gap_zones_only_grow_example =
    gap_zones_only_grow 100 percent product candles (fifth ∷ []) one_minute config none []
      (result_of (run candles)) (result_of (run (candles ++ fifth ∷ []))) first_result later_result

fvg_active_list_suffices_example :
    run (candles ++ fifth ∷ [])
    ≡ analyze_archive 100 percent product (candles ++ fifth ∷ []) one_minute config none
fvg_active_list_suffices_example =
    fvg_active_list_suffices 100 percent product (candles ++ fifth ∷ []) one_minute config none
