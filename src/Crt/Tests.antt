-- ===== src/Crt/Tests.antt =====
-- Three one-minute candles: the second sweeps the low of the first, or the first is flat.
use ai_trading_platform.Prelude.{
  ℕ, ◌+◌, ◌*◌, ◌≡◌, refl, true, false, some, List, [], ◌∷◌, ok, err, is_ok, All, arith, map,
}
use ai_trading_platform.Timeframe.{one_minute, epoch, minute, timeframe_duration}
use ai_trading_platform.Candle.{Candle}
use ai_trading_platform.Normalize.Defs.{has_duplicates, sorted, insert_sorted}
use ai_trading_platform.Normalize.Sorting.{Ascending}
use ai_trading_platform.Structure.Sequences.{last}
use ai_trading_platform.Crt.Schema.{
  low_side, invalid_confirmation, SweepEvidence, new_confirmation, CrtAnalysisResult,
}
use ai_trading_platform.Crt.Evidence.{
  validate_candles, index_of, candle_at, check_sweep, Sweep, validate_evidence,
}
use ai_trading_platform.Crt.Detector.{
  add_evidence, group_evidence, sorted_groups, has_other_side, confirmation_of, step_evidence,
  step_members, step_group, step_groups, analyze_crt,
}
use ai_trading_platform.Crt.Sound.{IsSupported, crt_confirmations-IsSupported}
use ai_trading_platform.Crt.Total.{IsRanged, crt_total, crt_flat_range_raises}

abbrev bar : ℕ → ℕ → ℕ → Candle
bar n top bottom = record {
  timestamp = epoch + n * minute;
  open_price = bottom;
  high = top;
  low = bottom;
  close = top;
  volume = 1;
}

abbrev candles : List Candle
candles = bar 0 20 10 ∷ bar 1 18 9 ∷ bar 2 21 12 ∷ []

abbrev flat_candles : List Candle
flat_candles = bar 0 10 10 ∷ bar 1 18 9 ∷ []

abbrev evidence : SweepEvidence
evidence = record {
  evidence_id = 1;
  source_event_id = 7;
  range_candle_timestamp = epoch;
  manipulation_candle_timestamp = epoch + minute;
  swept_side = low_side;
  level = 10;
  confirmed_at = epoch + 2 * minute;
}

abbrev confirmed : CrtAnalysisResult
confirmed = record {
  enabled = true;
  timeframe = one_minute;
  data_cutoff_at = some (epoch + 3 * minute);
  confirmations =
      confirmation_of candles one_minute evidence (record {
        range_candle = bar 0 20 10;
        manipulation_candle = bar 1 18 9;
        manipulation_index = 1;
      })
      ∷ [];
  rejections = [];
}

confirmed_once : analyze_crt candles one_minute true (evidence ∷ []) ≡ ok confirmed
unfolding analyze_crt validate_candles index_of candle_at check_sweep validate_evidence
    has_duplicates sorted insert_sorted last new_confirmation add_evidence group_evidence
    sorted_groups has_other_side confirmation_of step_evidence step_members step_group step_groups
confirmed_once = refl

crt_confirmations-IsSupported_example :
    All (IsSupported (some (epoch + 3 * minute))) confirmed.confirmations
    × Ascending (λ c. c.confirmed_at) confirmed.confirmations
crt_confirmations-IsSupported_example =
    crt_confirmations-IsSupported candles one_minute true (evidence ∷ []) confirmed confirmed_once

candles_valid : validate_candles (timeframe_duration one_minute) candles ≡ ok tt
unfolding validate_candles
candles_valid = refl

ids_distinct : has_duplicates (map (λ e. e.evidence_id) (evidence ∷ [])) ≡ false
unfolding has_duplicates
ids_distinct = refl

bar-IsRanged : (n : ℕ) (m : ℕ) (k : ℕ) → IsRanged (bar n (k + 2 + m) (k + 1))
bar-IsRanged n m k = record {
  low_positive = omega arith;
  open_positive = omega arith;
  wide = omega arith;
}

crt_total_example : is_ok (analyze_crt candles one_minute true (evidence ∷ [])) ≡ true
crt_total_example =
    crt_total candles one_minute (evidence ∷ []) candles_valid ids_distinct
      (bar-IsRanged 0 9 9, (bar-IsRanged 1 8 8, (bar-IsRanged 2 8 11, tt)))

flat_valid : validate_candles (timeframe_duration one_minute) flat_candles ≡ ok tt
unfolding validate_candles
flat_valid = refl

abbrev flat_sweep : Sweep
flat_sweep = record {
  range_candle = bar 0 10 10;
  manipulation_candle = bar 1 18 9;
  manipulation_index = 1;
}

flat_evidence :
    validate_evidence evidence flat_candles
      (timeframe_duration one_minute)
      (some (epoch + 2 * minute))
    ≡ ok flat_sweep
unfolding validate_evidence index_of candle_at check_sweep
flat_evidence = refl

crt_flat_range_raises_example :
    analyze_crt flat_candles one_minute true (evidence ∷ []) ≡ err invalid_confirmation
unfolding last
crt_flat_range_raises_example =
    crt_flat_range_raises flat_candles one_minute evidence flat_sweep flat_valid flat_evidence refl
