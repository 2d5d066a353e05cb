-- ===== src/Score/Promises.antt =====
-- The result of backend/app/engines/signal/score.py: its bounds, and what a candidate rests on.
use ai_trading_platform.Prelude.{
  ℕ, ◌+◌, ◌≡◌, refl, true, false, ◌&&◌, Option, none, some, List, [], ◌∷◌, ◌++◌, map, ℤ, pos, leb_ℤ,
  ◌≤ℤ◌, amounts, arith, ok, if◌then◌else◌, Bool-cases, Option-cases, inl, inr,
}
use ai_trading_platform.Crt.Schema.{CrtDirection}
use ai_trading_platform.Score.Schema.{
  ScoreDecision, long_candidate, short_candidate, no_trade, EvidenceDirection, bullish_evidence,
  bearish_evidence, neutral, Component, all_components, StrategyScoreConfig, ScoreEvidence,
  SignalScoreResult, has_component, has_components, total_of, new_score_result,
}
use ai_trading_platform.Score.Calculation.{
  negated, component_contribution, direction_at, contribution_of, signed_weight, crt_contribution,
  is_vetoed, decide, crt_match_status, confirmation_reasons, filter_decision, score_of,
  calculate_signal_score,
}

leb_ℤ-refl : (x : ℤ) → leb_ℤ x x ≡ true
leb_ℤ-refl x = ground arith

-- The result that passes its own audit.
abbrev pub result_of : ScoreEvidence → StrategyScoreConfig → SignalScoreResult
result_of e config =
    let score = score_of e config in
    let decided = decide e config score in
    let status = crt_match_status decided.0 e config in
    let confirmed =
      if config.crt.enabled && config.crt.use_confirmation
      then confirmation_reasons status
      else [] in
    let last = filter_decision config decided.0 status in
    record {
      decision = last.0;
      score = score;
      score_breakdown = map (contribution_of e config) all_components;
      crt_score_contribution = crt_contribution e config;
      crt_confirmation_status = status;
      result_decision_time = e.decision_time;
      reason_codes = (decided.1 ∷ confirmed) ++ last.1;
    }

pub calculates :
    (e : ScoreEvidence) (config : StrategyScoreConfig)
    → calculate_signal_score e config ≡ ok (result_of e config)
unfolding calculate_signal_score new_score_result has_components has_component
calculates e config = rw (leb_ℤ-refl (score_of e config)) refl

pub sum_of : (Component → ℕ) → List Component → ℕ
sum_of w [] = 0
sum_of w (c ∷ cs) = w c + sum_of w cs

contribution_bounded :
    (w : ℕ) (d : EvidenceDirection)
    → (component_contribution w d ≤ℤ pos w) × (negated (pos w) ≤ℤ component_contribution w d)
contribution_bounded w bullish_evidence = (omega amounts, omega amounts)
contribution_bounded w bearish_evidence = (omega amounts, omega amounts)
contribution_bounded w neutral = (omega amounts, omega amounts)

total_bounded :
    (e : ScoreEvidence) (config : StrategyScoreConfig) (cs : List Component)
    → (total_of (map (contribution_of e config) cs) ≤ℤ pos (sum_of config.weights cs))
      × (negated (pos (sum_of config.weights cs)) ≤ℤ total_of (map (contribution_of e config) cs))
unfolding total_of sum_of
total_bounded e config [] = (omega amounts, omega amounts)
total_bounded e config (c ∷ cs) =
    let one = contribution_bounded (config.weights c) (direction_at e c) in
    let rest = total_bounded e config cs in
    (omega (amounts, one.0, rest.0), omega (amounts, one.1, rest.1))

abbrev pub weight_or_zero : Option ℕ → ℕ
weight_or_zero none = 0
weight_or_zero (some w) = w

signed_weight_bounded :
    (d : CrtDirection) (w : ℕ)
    → (signed_weight d w ≤ℤ pos w) × (negated (pos w) ≤ℤ signed_weight d w)
signed_weight_bounded CrtDirection.bullish w = (omega amounts, omega amounts)
signed_weight_bounded CrtDirection.bearish w = (omega amounts, omega amounts)

zero_bounded : (w : ℕ) → (pos 0 ≤ℤ pos w) × (negated (pos w) ≤ℤ pos 0)
zero_bounded w = (omega amounts, omega amounts)

crt_bounded :
    (e : ScoreEvidence) (config : StrategyScoreConfig)
    → (crt_contribution e config ≤ℤ pos (weight_or_zero config.crt.crt_weight))
      × (negated (pos (weight_or_zero config.crt.crt_weight)) ≤ℤ crt_contribution e config)
unfolding crt_contribution
crt_bounded e config = elim (Bool-cases config.crt.enabled) [
  | inr off ↦ simp (crt_contribution, off) (zero_bounded (weight_or_zero config.crt.crt_weight))
  | inl on ↦ elim (Option-cases config.crt.crt_weight) [
    | inl unweighted ↦ simp (crt_contribution, on, unweighted) (zero_bounded 0)
    | inr (w, weighted) ↦ elim (Option-cases e.crt_confirmation) [
      | inl absent ↦ simp (crt_contribution, on, weighted, absent) (zero_bounded w)
      | inr (c, there) ↦
          simp (crt_contribution, on, weighted, there) (signed_weight_bounded c.direction w)
    ]
  ]
]

-- The score of any evidence returns, since its result passes its own audit, and lies within the sum of
-- the weights on both sides.
pub score_bounded :
    (e : ScoreEvidence) (config : StrategyScoreConfig)
    → (r : SignalScoreResult) × (calculate_signal_score e config ≡ ok r)
      × (r.score
          ≤ℤ pos (sum_of config.weights all_components + weight_or_zero config.crt.crt_weight))
      × (negated (pos (sum_of config.weights all_components + weight_or_zero config.crt.crt_weight))
          ≤ℤ r.score)
score_bounded e config =
    let total = total_bounded e config all_components in
    let crt = crt_bounded e config in
    (
      result_of e config,
      calculates e config,
      omega (amounts, total.0, crt.0),
      omega (amounts, total.1, crt.1),
    )

-- What a long or a short rests on.
abbrev pub Rests : ScoreDecision → ScoreEvidence → StrategyScoreConfig → ℤ → Type 0
Rests no_trade e config score = Unit
Rests long_candidate e config score =
    (is_vetoed e config ≡ false) × (leb_ℤ config.signal.long_threshold score ≡ true)
Rests short_candidate e config score =
    (is_vetoed e config ≡ false) × (leb_ℤ score config.signal.short_threshold ≡ true)
