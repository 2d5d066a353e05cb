-- ===== src/Score/Mirror/Amounts.antt =====
-- The amounts of engines/signal/score.py and their mirror images.
use ai_trading_platform.Prelude.{
  ℕ, ◌≡◌, ◌∙◌, ap, refl, Option, none, some, List, [], ◌∷◌, map, pos, amounts, eq_parts, Bool-cases,
  Option-cases, inl, inr,
}
use ai_trading_platform.Crt.Schema.{CrtDirection, Confirmation}
use ai_trading_platform.Score.Schema.{
  EvidenceDirection, bullish_evidence, bearish_evidence, neutral, Component, all_components,
  StrategyScoreConfig, ScoreEvidence, ComponentEvidence, Contribution, total_of,
}
use ai_trading_platform.Score.Calculation.{
  negated, component_contribution, direction_at, contribution_of, signed_weight, crt_contribution,
  score_of,
}
use ai_trading_platform.Score.Mirror.Flips.{
  flip_evidence, flip_crt, flip_component, flip_confirmation, mirror_evidence, mirror_config,
  mirror_contribution,
}

component_contribution-flip :
    (w : ℕ) (d : EvidenceDirection)
    → component_contribution w (flip_evidence d) ≡ negated (component_contribution w d)
component_contribution-flip w bullish_evidence = refl
component_contribution-flip w bearish_evidence = omega amounts
component_contribution-flip w neutral = omega amounts

direction_at-flip :
    (o : Option ComponentEvidence)
    → (elim (flip_component o) [ none ↦ neutral | some x ↦ x.evidence_direction ])
      ≡ flip_evidence (elim o [ none ↦ neutral | some x ↦ x.evidence_direction ])
direction_at-flip none = refl
direction_at-flip (some x) = refl

pub breakdown_mirrored :
    (e : ScoreEvidence) (config : StrategyScoreConfig) (cs : List Component)
    → map (contribution_of (mirror_evidence e) (mirror_config config)) cs
      ≡ map mirror_contribution (map (contribution_of e config) cs)
breakdown_mirrored e config [] = refl
breakdown_mirrored e config (c ∷ cs) =
    let one : component_contribution (config.weights c) (direction_at (mirror_evidence e) c)
        ≡ negated (component_contribution (config.weights c) (direction_at e c)) =
      ap (component_contribution (config.weights c)) (direction_at-flip (e.components c))
      ∙ component_contribution-flip (config.weights c) (direction_at e c) in
    rw (one, breakdown_mirrored e config cs) refl

total_mirrored :
    (xs : List Contribution) → total_of (map mirror_contribution xs) ≡ negated (total_of xs)
unfolding total_of
total_mirrored [] = omega amounts
total_mirrored (x ∷ xs) = let rest = total_mirrored xs in omega (amounts, eq_parts _ _ rest)

signed_weight-flip :
    (d : CrtDirection) (w : ℕ) → signed_weight (flip_crt d) w ≡ negated (signed_weight d w)
signed_weight-flip CrtDirection.bullish w = refl
signed_weight-flip CrtDirection.bearish w = omega amounts

zero_mirrored : pos 0 ≡ negated (pos 0)
zero_mirrored = omega amounts

confirmation_amount-flip :
    (o : Option Confirmation) (w : ℕ)
    → (elim (flip_confirmation o) [ none ↦ pos 0 | some c ↦ signed_weight c.direction w ])
      ≡ negated (elim o [ none ↦ pos 0 | some c ↦ signed_weight c.direction w ])
confirmation_amount-flip none w = zero_mirrored
confirmation_amount-flip (some c) w = signed_weight-flip c.direction w

pub crt_contribution_mirrored :
    (e : ScoreEvidence) (config : StrategyScoreConfig)
    → crt_contribution (mirror_evidence e) (mirror_config config)
      ≡ negated (crt_contribution e config)
unfolding crt_contribution
crt_contribution_mirrored e config = elim (Bool-cases config.crt.enabled) [
  | inr off ↦ simp (crt_contribution, off) zero_mirrored
  | inl on ↦ elim (Option-cases config.crt.crt_weight) [
    | inl unweighted ↦ simp (crt_contribution, on, unweighted) zero_mirrored
    | inr (w, weighted) ↦
        simp (crt_contribution, on, weighted) (confirmation_amount-flip e.crt_confirmation w)
  ]
]

pub score_mirrored :
    (e : ScoreEvidence) (config : StrategyScoreConfig)
    → score_of (mirror_evidence e) (mirror_config config) ≡ negated (score_of e config)
score_mirrored e config =
    let total : total_of
          (map (contribution_of (mirror_evidence e) (mirror_config config)) all_components)
        ≡ negated (total_of (map (contribution_of e config) all_components)) =
      ap total_of (breakdown_mirrored e config all_components)
      ∙ total_mirrored (map (contribution_of e config) all_components) in
    let crt = crt_contribution_mirrored e config in
    omega (amounts, eq_parts _ _ total, eq_parts _ _ crt)
