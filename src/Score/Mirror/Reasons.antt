-- ===== src/Score/Mirror/Reasons.antt =====
-- The decisions, statuses and reasons of engines/signal/score.py and their mirror images.
use ai_trading_platform.Prelude.{
  if◌then◌else◌, ◌≡◌, ap, refl, Bool, true, false, ◌&&◌, ◌||◌, not, Option, none, some, List, [],
  ◌∷◌, ◌++◌, map, ℤ, pos, leb_ℤ, is_some, parts--ℤ, arith, Bool-cases, inl, inr,
}
use ai_trading_platform.Crt.Schema.{CrtDirection, Confirmation}
use ai_trading_platform.Score.Schema.{
  ScoreDecision, long_candidate, short_candidate, no_trade, ReasonCode, MatchStatus, disabled,
  not_used, missing, match_found, direction_conflict, AreThresholds, StrategyScoreConfig,
  ScoreEvidence,
}
use ai_trading_platform.Score.Calculation.{
  negated, is_vetoed, decide, expected_match, crt_match_status, confirmation_reasons, is_candidate,
  filtered, filter_decision,
}
use ai_trading_platform.Score.Mirror.Flips.{
  flip_crt, flip_confirmation, flip_decision, flip_reason, mirror_evidence, mirror_config,
}

leb_ℤ-negated : (x y : ℤ) → leb_ℤ (negated y) (negated x) ≡ leb_ℤ x y
leb_ℤ-negated x y = ground (arith, parts--ℤ (pos 0) x, parts--ℤ (pos 0) y)

abbrev pub flip_pair : ScoreDecision × ReasonCode → ScoreDecision × ReasonCode
flip_pair p = (flip_decision p.0, flip_reason p.1)

pub decide_mirrored :
    (e : ScoreEvidence) (config : StrategyScoreConfig) (s : ℤ)
    → AreThresholds config.signal
    → decide (mirror_evidence e) (mirror_config config) (negated s) ≡ flip_pair (decide e config s)
unfolding decide
decide_mirrored e config s t =
    let low = leb_ℤ-negated s config.signal.short_threshold in
    let high = leb_ℤ-negated config.signal.long_threshold s in
    elim (Bool-cases (is_vetoed e config)) [
      | inl vetoed ↦ rw (decide, vetoed) refl
      | inr free ↦ elim (Bool-cases (leb_ℤ config.signal.long_threshold s)) [
        | inl above ↦
            let apart : leb_ℤ s config.signal.short_threshold ≡ false =
              ground (arith, above, t.long_positive, t.short_negative) in
            rw (decide, free, low, high, above, apart) refl
        | inr under ↦ elim (Bool-cases (leb_ℤ s config.signal.short_threshold)) [
          | inl below ↦ rw (decide, free, low, high, under, below) refl
          | inr between ↦ rw (decide, free, low, high, under, between) refl
        ]
      ]
    ]

expected_match-flip :
    (d : ScoreDecision) (c : CrtDirection)
    → expected_match (flip_decision d) (flip_crt c) ≡ expected_match d c
expected_match-flip no_trade c = refl
expected_match-flip long_candidate CrtDirection.bullish = refl
expected_match-flip long_candidate CrtDirection.bearish = refl
expected_match-flip short_candidate CrtDirection.bullish = refl
expected_match-flip short_candidate CrtDirection.bearish = refl

confirmation_match-flip :
    (o : Option Confirmation) (d : ScoreDecision)
    → (elim (flip_confirmation o) [
      | none ↦ missing
      | some c ↦ expected_match (flip_decision d) c.direction
    ])
      ≡ elim o [ none ↦ missing | some c ↦ expected_match d c.direction ]
confirmation_match-flip none d = refl
confirmation_match-flip (some c) d = expected_match-flip d c.direction

pub crt_match_status_mirrored :
    (d : ScoreDecision) (e : ScoreEvidence) (config : StrategyScoreConfig)
    → crt_match_status (flip_decision d) (mirror_evidence e) (mirror_config config)
      ≡ crt_match_status d e config
unfolding crt_match_status
crt_match_status_mirrored d e config =
    let unused =
      not (config.crt.use_confirmation || config.crt.use_filter)
      && not (is_some config.crt.crt_weight) in
    ap (λ s. if not config.crt.enabled then disabled else if unused then not_used else s)
      (confirmation_match-flip e.crt_confirmation d)

abbrev pub flip_last : ScoreDecision × List ReasonCode → ScoreDecision × List ReasonCode
flip_last p = (flip_decision p.0, map flip_reason p.1)

filtered-flip :
    (d : ScoreDecision) (s : MatchStatus) → filtered (flip_decision d) s ≡ flip_last (filtered d s)
filtered-flip d missing = refl
filtered-flip d direction_conflict = refl
filtered-flip d match_found = refl
filtered-flip d disabled = refl
filtered-flip d not_used = refl

is_candidate-flip : (d : ScoreDecision) → is_candidate (flip_decision d) ≡ is_candidate d
is_candidate-flip no_trade = refl
is_candidate-flip long_candidate = refl
is_candidate-flip short_candidate = refl

pub filter_mirrored :
    (config : StrategyScoreConfig) (d : ScoreDecision) (s : MatchStatus)
    → filter_decision (mirror_config config) (flip_decision d) s
      ≡ flip_last (filter_decision config d s)
unfolding filter_decision
filter_mirrored config d s =
    elim (Bool-cases (is_candidate d && (config.crt.enabled && config.crt.use_filter))) [
      | inl on ↦ rw (filter_decision, is_candidate-flip d, on) (filtered-flip d s)
      | inr off ↦ rw (filter_decision, is_candidate-flip d, off) refl
    ]

confirmation_reasons-flip :
    (s : MatchStatus) → map flip_reason (confirmation_reasons s) ≡ confirmation_reasons s
confirmation_reasons-flip missing = refl
confirmation_reasons-flip direction_conflict = refl
confirmation_reasons-flip match_found = refl
confirmation_reasons-flip disabled = refl
confirmation_reasons-flip not_used = refl

pub confirmed_mirrored :
    (on : Bool) (s : MatchStatus)
    → map flip_reason (if on then confirmation_reasons s else [])
      ≡ (if on then confirmation_reasons s else [])
confirmed_mirrored true s = confirmation_reasons-flip s
confirmed_mirrored false s = refl

pub map_append :
    (xs ys : List ReasonCode)
    → map flip_reason (xs ++ ys) ≡ map flip_reason xs ++ map flip_reason ys
map_append [] ys = refl
map_append (x ∷ xs) ys = ap (λ l. flip_reason x ∷ l) (map_append xs ys)
