-- ===== src/Score/Calculation.antt =====
-- `calculate_signal_score` of backend/app/engines/signal/score.py.
use ai_trading_platform.Prelude.{
  ℕ, Bool, true, false, ◌&&◌, ◌||◌, not, none, some, List, [], ◌∷◌, ◌++◌, map, ℤ, pos, ◌+ℤ◌, ◌-ℤ◌,
  leb_ℤ, is_some, Result, if◌then◌else◌,
}
use ai_trading_platform.Crt.Schema.{CrtDirection}
use ai_trading_platform.Score.Schema.{
  ScoreDecision, long_candidate, short_candidate, no_trade, EvidenceDirection, bullish_evidence,
  bearish_evidence, neutral, Component, all_components, ReasonCode, score_long_threshold_met,
  score_short_threshold_met, score_below_thresholds, htf_conflict_veto, crt_confirmation_match,
  crt_confirmation_missing, crt_confirmation_conflict, crt_filter_missing,
  crt_filter_direction_conflict, MatchStatus, disabled, not_used, missing, match_found,
  direction_conflict, StrategyScoreConfig, ScoreEvidence, Contribution, SignalScoreResult,
  ScoreError, total_of, new_score_result,
}

abbrev pub negated : ℤ → ℤ
negated x = pos 0 -ℤ x

-- `_component_contribution`
abbrev pub component_contribution : ℕ → EvidenceDirection → ℤ
component_contribution weight bullish_evidence = pos weight
component_contribution weight bearish_evidence = negated (pos weight)
component_contribution weight neutral = pos 0

abbrev pub direction_at : ScoreEvidence → Component → EvidenceDirection
direction_at e c = elim (e.components c) [ none ↦ neutral | some x ↦ x.evidence_direction ]

abbrev pub contribution_of : ScoreEvidence → StrategyScoreConfig → Component → Contribution
contribution_of e config c = record {
  component = c;
  amount = component_contribution (config.weights c) (direction_at e c);
}

abbrev pub signed_weight : CrtDirection → ℕ → ℤ
signed_weight CrtDirection.bullish weight = pos weight
signed_weight CrtDirection.bearish weight = negated (pos weight)

-- `_crt_contribution`
unfoldable pub crt_contribution : ScoreEvidence → StrategyScoreConfig → ℤ
crt_contribution e config =
    if config.crt.enabled
    then elim config.crt.crt_weight [
      | none ↦ pos 0
      | some weight ↦ elim e.crt_confirmation [
        | none ↦ pos 0
        | some c ↦ signed_weight c.direction weight
      ]
    ]
    else pos 0

abbrev pub is_vetoed : ScoreEvidence → StrategyScoreConfig → Bool
is_vetoed e config = e.higher_timeframe_conflict && config.signal.veto_on_htf_conflict

-- The decision by the thresholds, and its reason.
unfoldable pub decide : ScoreEvidence → StrategyScoreConfig → ℤ → ScoreDecision × ReasonCode
decide e config score =
    if is_vetoed e config
    then (no_trade, htf_conflict_veto)
    else if leb_ℤ config.signal.long_threshold score
    then (long_candidate, score_long_threshold_met)
    else if leb_ℤ score config.signal.short_threshold
    then (short_candidate, score_short_threshold_met)
    else (no_trade, score_below_thresholds)

abbrev pub expected_match : ScoreDecision → CrtDirection → MatchStatus
expected_match no_trade d = not_used
expected_match long_candidate CrtDirection.bullish = match_found
expected_match long_candidate CrtDirection.bearish = direction_conflict
expected_match short_candidate CrtDirection.bullish = direction_conflict
expected_match short_candidate CrtDirection.bearish = match_found

-- `_crt_match_status`
unfoldable pub crt_match_status : ScoreDecision → ScoreEvidence → StrategyScoreConfig → MatchStatus
crt_match_status d e config =
    if not config.crt.enabled
    then disabled
    else if not (config.crt.use_confirmation || config.crt.use_filter)
        && not (is_some config.crt.crt_weight)
    then not_used
    else elim e.crt_confirmation [ none ↦ missing | some c ↦ expected_match d c.direction ]

abbrev pub confirmation_reasons : MatchStatus → List ReasonCode
confirmation_reasons match_found = crt_confirmation_match ∷ []
confirmation_reasons missing = crt_confirmation_missing ∷ []
confirmation_reasons direction_conflict = crt_confirmation_conflict ∷ []
confirmation_reasons disabled = []
confirmation_reasons not_used = []

abbrev pub is_candidate : ScoreDecision → Bool
is_candidate no_trade = false
is_candidate long_candidate = true
is_candidate short_candidate = true

-- What the filter makes of a candidate, and the reason that it adds.
abbrev pub filtered : ScoreDecision → MatchStatus → ScoreDecision × List ReasonCode
filtered d missing = (no_trade, crt_filter_missing ∷ [])
filtered d direction_conflict = (no_trade, crt_filter_direction_conflict ∷ [])
filtered d match_found = (d, [])
filtered d disabled = (d, [])
filtered d not_used = (d, [])

unfoldable pub filter_decision :
    StrategyScoreConfig → ScoreDecision → MatchStatus → ScoreDecision × List ReasonCode
filter_decision config d status =
    if is_candidate d && (config.crt.enabled && config.crt.use_filter)
    then filtered d status
    else (d, [])

abbrev pub score_of : ScoreEvidence → StrategyScoreConfig → ℤ
score_of e config =
    total_of (map (contribution_of e config) all_components) +ℤ crt_contribution e config

unfoldable pub calculate_signal_score :
    ScoreEvidence → StrategyScoreConfig → Result ScoreError SignalScoreResult
calculate_signal_score e config =
    let score = score_of e config in
    let decided = decide e config score in
    let status = crt_match_status decided.0 e config in
    let confirmed =
      if config.crt.enabled && config.crt.use_confirmation
      then confirmation_reasons status
      else [] in
    let last = filter_decision config decided.0 status in
    new_score_result (record {
      decision = last.0;
      score = score;
      score_breakdown = map (contribution_of e config) all_components;
      crt_score_contribution = crt_contribution e config;
      crt_confirmation_status = status;
      result_decision_time = e.decision_time;
      reason_codes = (decided.1 ∷ confirmed) ++ last.1;
    })
