-- ===== src/Score/Mirror/Flips.antt =====
-- The mirror image of the evidence, configuration and result of engines/signal/score.py: long for
-- short, each amount negated.
use ai_trading_platform.Prelude.{Option, none, some, map}
use ai_trading_platform.Crt.Schema.{CrtDirection, Confirmation}
use ai_trading_platform.Score.Schema.{
  ScoreDecision, long_candidate, short_candidate, no_trade, EvidenceDirection, bullish_evidence,
  bearish_evidence, neutral, ReasonCode, score_long_threshold_met, score_short_threshold_met,
  score_below_thresholds, htf_conflict_veto, crt_confirmation_match, crt_confirmation_missing,
  crt_confirmation_conflict, crt_filter_missing, crt_filter_direction_conflict, StrategyScoreConfig,
  ScoreEvidence, ComponentEvidence, Contribution, SignalScoreResult,
}
use ai_trading_platform.Score.Calculation.{negated}

abbrev pub flip_evidence : EvidenceDirection → EvidenceDirection
flip_evidence bullish_evidence = bearish_evidence
flip_evidence bearish_evidence = bullish_evidence
flip_evidence neutral = neutral

abbrev pub flip_crt : CrtDirection → CrtDirection
flip_crt CrtDirection.bullish = CrtDirection.bearish
flip_crt CrtDirection.bearish = CrtDirection.bullish

abbrev pub flip_component : Option ComponentEvidence → Option ComponentEvidence
flip_component none = none
flip_component (some x) =
    some (record x { evidence_direction = flip_evidence x.evidence_direction })

abbrev pub flip_confirmation : Option Confirmation → Option Confirmation
flip_confirmation none = none
flip_confirmation (some c) = some (record c { direction = flip_crt c.direction })

abbrev pub flip_decision : ScoreDecision → ScoreDecision
flip_decision long_candidate = short_candidate
flip_decision short_candidate = long_candidate
flip_decision no_trade = no_trade

abbrev pub flip_reason : ReasonCode → ReasonCode
flip_reason score_long_threshold_met = score_short_threshold_met
flip_reason score_short_threshold_met = score_long_threshold_met
flip_reason score_below_thresholds = score_below_thresholds
flip_reason htf_conflict_veto = htf_conflict_veto
flip_reason crt_confirmation_match = crt_confirmation_match
flip_reason crt_confirmation_missing = crt_confirmation_missing
flip_reason crt_confirmation_conflict = crt_confirmation_conflict
flip_reason crt_filter_missing = crt_filter_missing
flip_reason crt_filter_direction_conflict = crt_filter_direction_conflict

-- The evidence with every direction turned round.
abbrev pub mirror_evidence : ScoreEvidence → ScoreEvidence
mirror_evidence e = record e {
  components = λ c. flip_component (e.components c);
  crt_confirmation = flip_confirmation e.crt_confirmation;
}

-- The thresholds exchanged and negated.
abbrev pub mirror_config : StrategyScoreConfig → StrategyScoreConfig
mirror_config config = record config {
  signal = record config.signal {
    long_threshold = negated config.signal.short_threshold;
    short_threshold = negated config.signal.long_threshold;
  };
}

abbrev pub mirror_contribution : Contribution → Contribution
mirror_contribution x = record x { amount = negated x.amount }

abbrev pub mirror_result : SignalScoreResult → SignalScoreResult
mirror_result r = record r {
  decision = flip_decision r.decision;
  score = negated r.score;
  score_breakdown = map mirror_contribution r.score_breakdown;
  crt_score_contribution = negated r.crt_score_contribution;
  reason_codes = map flip_reason r.reason_codes;
}
