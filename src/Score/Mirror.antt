-- ===== src/Score/Mirror.antt =====
-- The score of engines/signal/score.py on mirrored evidence.
mod Flips
mod Amounts
mod Reasons
pub use ai_trading_platform.Score.Mirror.Flips.{
  flip_evidence, flip_crt, flip_component, flip_confirmation, flip_decision, flip_reason,
  mirror_evidence, mirror_config, mirror_contribution, mirror_result,
}
use ai_trading_platform.Prelude.{
  if◌then◌else◌, ◌≡◌, ◌∙◌, ap, sym, ◌&&◌, List, [], ◌∷◌, ◌++◌, map, ℤ, ok,
}
use ai_trading_platform.Score.Schema.{
  ScoreDecision, all_components, ReasonCode, MatchStatus, AreThresholds, StrategyScoreConfig,
  ScoreEvidence, Contribution, SignalScoreResult,
}
use ai_trading_platform.Score.Calculation.{
  decide, crt_match_status, confirmation_reasons, filter_decision, score_of, calculate_signal_score,
}
use ai_trading_platform.Score.Promises.{result_of, calculates}
use ai_trading_platform.Score.Mirror.Amounts.{
  breakdown_mirrored, crt_contribution_mirrored, score_mirrored,
}
use ai_trading_platform.Score.Mirror.Reasons.{
  flip_pair, decide_mirrored, crt_match_status_mirrored, flip_last, filter_mirrored,
  confirmed_mirrored, map_append,
}

unfoldable made :
    ScoreDecision
    → ℤ
    → List Contribution
    → ℤ
    → MatchStatus
    → ScoreEvidence
    → List ReasonCode
    → SignalScoreResult
made d score breakdown crt status e reasons = record {
  decision = d;
  score = score;
  score_breakdown = breakdown;
  crt_score_contribution = crt;
  crt_confirmation_status = status;
  result_decision_time = e.decision_time;
  reason_codes = reasons;
}

made_same :
    {d x : ScoreDecision} {a b c f : ℤ} {l m : List Contribution} {s u : MatchStatus}
    {p q : List ReasonCode} (e : ScoreEvidence)
    → d ≡ x
    → a ≡ b
    → l ≡ m
    → c ≡ f
    → s ≡ u
    → p ≡ q
    → made d a l c s e p ≡ made x b m f u e q
made_same e d a l c s p = cc

reasons_mirrored :
    (reason : ReasonCode) (confirmed last : List ReasonCode)
    → map flip_reason confirmed ≡ confirmed
    → (flip_reason reason ∷ confirmed) ++ map flip_reason last
      ≡ map flip_reason ((reason ∷ confirmed) ++ last)
reasons_mirrored reason confirmed last h =
    ap (λ xs. flip_reason reason ∷ xs)
      (ap (λ xs. xs ++ map flip_reason last) (sym h) ∙ sym (map_append confirmed last))

-- The result of mirrored evidence, under thresholds that are exchanged and negated, is the mirrored
-- result: long for short, each amount negated, the reasons of the other side. So no side has an
-- advantage, given a long threshold above zero and a short one below it.
pub mirrored_score :
    (e : ScoreEvidence) (config : StrategyScoreConfig) (r : SignalScoreResult)
    → AreThresholds config.signal
    → calculate_signal_score e config ≡ ok r
    → calculate_signal_score (mirror_evidence e) (mirror_config config) ≡ ok (mirror_result r)
unfolding made
mirrored_score e config r t h =
    let me = mirror_evidence e in
    let mc = mirror_config config in
    let same : result_of e config ≡ r = cc (calculates e config) in
    let decided = decide e config (score_of e config) in
    let status = crt_match_status decided.0 e config in
    let last = filter_decision config decided.0 status in
    let on = config.crt.enabled && config.crt.use_confirmation in
    let confirmed = if on then confirmation_reasons status else [] in
    let score = score_mirrored e config in
    let decides : decide me mc (score_of me mc) ≡ flip_pair decided =
      ap (decide me mc) score ∙ decide_mirrored e config (score_of e config) t in
    let decided_there = decide me mc (score_of me mc) in
    let matches : crt_match_status decided_there.0 me mc ≡ status =
      ap (λ p. crt_match_status p.0 me mc) decides ∙ crt_match_status_mirrored decided.0 e config in
    let filters : filter_decision mc decided_there.0 (crt_match_status decided_there.0 me mc)
        ≡ flip_last last =
      ap (λ p. filter_decision mc p.0 (crt_match_status decided_there.0 me mc)) decides
      ∙ ap (filter_decision mc (flip_decision decided.0)) matches
      ∙ filter_mirrored config decided.0 status in
    let reasons : (decided_there.1
            ∷ (if on then confirmation_reasons (crt_match_status decided_there.0 me mc) else []))
          ++ (filter_decision mc decided_there.0 (crt_match_status decided_there.0 me mc)).1
        ≡ map flip_reason ((decided.1 ∷ confirmed) ++ last.1) =
      ap
        (λ p.
          (p.1 ∷ (if on then confirmation_reasons (crt_match_status decided_there.0 me mc) else []))
          ++ (filter_decision mc decided_there.0 (crt_match_status decided_there.0 me mc)).1)
        decides
      ∙ ap
          (λ m.
            (flip_reason decided.1 ∷ (if on then confirmation_reasons m else []))
            ++ (filter_decision mc decided_there.0 (crt_match_status decided_there.0 me mc)).1)
          matches
      ∙ ap (λ l. (flip_reason decided.1 ∷ confirmed) ++ l.1) filters
      ∙ reasons_mirrored decided.1 confirmed last.1 (confirmed_mirrored on status) in
    calculates me mc
    ∙ ap ok (
        made_same e (ap (λ l. l.0) filters) score (breakdown_mirrored e config all_components)
          (crt_contribution_mirrored e config) matches reasons
        ∙ ap mirror_result same)
