-- ===== src/Score/Tests.antt =====
-- Evidence of a bullish break of structure, with a bullish confirmation.
use ai_trading_platform.Prelude.{
  false, ◌+◌, ◌*◌, ◌≡◌, refl, true, false, Option, none, some, [], pos, negsuc, ◌+ℤ◌, ◌-ℤ◌, ◌≤ℤ◌,
  Result, ok, err,
}
use ai_trading_platform.Timeframe.{epoch, minute, one_minute}
use ai_trading_platform.Crt.Schema.{
  CrtDirection, Confirmation, low_side, buy_below_third_candle_open,
}
use ai_trading_platform.Score.Schema.{
  long_candidate, bullish_evidence, Component, bos, all_components, match_found, AreThresholds,
  StrategyScoreConfig, ComponentEvidence, ScoreEvidence, SignalScoreResult, ScoreError,
  has_component, has_components, total_of, new_score_result,
}
use ai_trading_platform.Score.Calculation.{
  negated, crt_contribution, decide, crt_match_status, filter_decision, calculate_signal_score,
}
use ai_trading_platform.Score.Promises.{sum_of, weight_or_zero, score_bounded}
use ai_trading_platform.Score.Mirror.{mirror_evidence, mirror_config, mirror_result, mirrored_score}

abbrev confirmation : Confirmation
confirmation = record {
  confirmation_id = 1;
  direction = CrtDirection.bullish;
  timeframe = one_minute;
  range_candle_timestamp = epoch;
  range_high = 12;
  range_low = 10;
  manipulation_candle_timestamp = epoch + minute;
  manipulation_closed_at = epoch + 2 * minute;
  swept_side = low_side;
  sweep_level = 10;
  source_event_id = 1;
  confirmed_at = epoch + 2 * minute;
  third_candle_timestamp = none;
  third_candle_open = none;
  entry_relation = buy_below_third_candle_open;
  opposite_wick_reference = 12;
}

abbrev bos_only : Component → Option ComponentEvidence
bos_only bos =
    some (record { evidence_direction = bullish_evidence; evidence_confirmed_at = epoch })
bos_only c = none

abbrev evidence : ScoreEvidence
evidence = record {
  decision_time = epoch + 3 * minute;
  components = bos_only;
  higher_timeframe_conflict = false;
  crt_confirmation = some confirmation;
}

abbrev config : StrategyScoreConfig
config = record {
  signal = record {
    long_threshold = pos 5;
    short_threshold = negsuc 6;
    veto_on_htf_conflict = true;
  };
  weights = λ c. 3;
  crt = record { enabled = true; use_confirmation = true; use_filter = true; crt_weight = some 2 };
}

abbrev default : SignalScoreResult
default = record {
  decision = long_candidate;
  score = pos 0;
  score_breakdown = [];
  crt_score_contribution = pos 0;
  crt_confirmation_status = match_found;
  result_decision_time = 0;
  reason_codes = [];
}

abbrev value_of : Result ScoreError SignalScoreResult → SignalScoreResult
value_of (ok r) = r
value_of (err e) = default

abbrev result : SignalScoreResult
result = value_of (calculate_signal_score evidence config)

is_calculated : calculate_signal_score evidence config ≡ ok result
unfolding calculate_signal_score new_score_result has_components has_component total_of
    crt_contribution decide crt_match_status filter_decision ◌+ℤ◌ ◌-ℤ◌
is_calculated = refl

is_long : result.decision ≡ long_candidate
unfolding calculate_signal_score new_score_result has_components has_component total_of
    crt_contribution decide crt_match_status filter_decision ◌+ℤ◌ ◌-ℤ◌
is_long = refl

thresholds : AreThresholds config.signal
thresholds = record { long_positive = refl; short_negative = refl }

score_bounded_example :
    (r : SignalScoreResult) × (calculate_signal_score evidence config ≡ ok r)
    × (r.score ≤ℤ pos (sum_of config.weights all_components + weight_or_zero config.crt.crt_weight))
    × (negated (pos (sum_of config.weights all_components + weight_or_zero config.crt.crt_weight))
        ≤ℤ r.score)
score_bounded_example = score_bounded evidence config

mirrored_score_example :
    calculate_signal_score (mirror_evidence evidence) (mirror_config config)
    ≡ ok (mirror_result result)
mirrored_score_example = mirrored_score evidence config result thresholds is_calculated
