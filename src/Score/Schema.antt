-- ===== src/Score/Schema.antt =====
-- backend/app/schemas/signal_score.py and the configuration of schemas/crt.py. Metadata and the texts
-- that name sources are left out.
use ai_trading_platform.Prelude.{
  ℕ, ◌≡◌, Bool, true, false, ◌&&◌, not, Option, List, [], ◌∷◌, ◌==◌, ℤ, pos, ◌+ℤ◌, ltb_ℤ, leb_ℤ,
  Result, ok, err, if◌then◌else◌,
}
use ai_trading_platform.Timeframe.{Datetime}
use ai_trading_platform.Crt.Schema.{Confirmation}

pub data ScoreDecision : Type 0 where
  long_candidate short_candidate no_trade : ScoreDecision

pub data EvidenceDirection : Type 0 where
  bullish_evidence bearish_evidence neutral : EvidenceDirection

pub data Component : Type 0 where
  macd bos mss liquidity_sweep fair_value_gap order_block displacement support_resistance
        htf_alignment :
      Component

-- The members of the enumeration, in order.
abbrev pub all_components : List Component
all_components =
    macd ∷ bos ∷ mss ∷ liquidity_sweep ∷ fair_value_gap ∷ order_block ∷ displacement
    ∷ support_resistance ∷ htf_alignment ∷ []

pub data ReasonCode : Type 0 where
  score_long_threshold_met score_short_threshold_met score_below_thresholds htf_conflict_veto :
      ReasonCode
  crt_confirmation_match crt_confirmation_missing crt_confirmation_conflict : ReasonCode
  crt_filter_missing crt_filter_direction_conflict : ReasonCode

pub data MatchStatus : Type 0 where
  disabled not_used missing match_found direction_conflict : MatchStatus

pub record ScoreThresholds : Type 0 where
  pub long_threshold : ℤ
  pub short_threshold : ℤ
  pub veto_on_htf_conflict : Bool

-- The bounds of the thresholds, which put them in order.
pub record AreThresholds (t : ScoreThresholds) : Type 0 where
  pub long_positive : ltb_ℤ (pos 0) t.long_threshold ≡ true
  pub short_negative : ltb_ℤ t.short_threshold (pos 0) ≡ true

-- Which of the uses are among `signal_uses`.
pub record CrtConfig : Type 0 where
  pub enabled : Bool
  pub use_confirmation : Bool
  pub use_filter : Bool
  pub crt_weight : Option ℕ

pub record StrategyScoreConfig : Type 0 where
  pub signal : ScoreThresholds
  pub weights : Component → ℕ
  pub crt : CrtConfig

pub record ComponentEvidence : Type 0 where
  pub evidence_direction : EvidenceDirection
  pub evidence_confirmed_at : Datetime

pub record ScoreEvidence : Type 0 where
  pub decision_time : Datetime
  pub components : Component → Option ComponentEvidence
  pub higher_timeframe_conflict : Bool
  pub crt_confirmation : Option Confirmation

pub record Contribution : Type 0 where
  pub component : Component
  pub amount : ℤ

pub record SignalScoreResult : Type 0 where
  pub decision : ScoreDecision
  pub score : ℤ
  pub score_breakdown : List Contribution
  pub crt_score_contribution : ℤ
  pub crt_confirmation_status : MatchStatus
  pub result_decision_time : Datetime
  pub reason_codes : List ReasonCode

pub data ScoreError : Type 0 where
  missing_component wrong_sum : ScoreError

abbrev pub component_number : Component → ℕ
component_number macd = 0
component_number bos = 1
component_number mss = 2
component_number liquidity_sweep = 3
component_number fair_value_gap = 4
component_number order_block = 5
component_number displacement = 6
component_number support_resistance = 7
component_number htf_alignment = 8

unfoldable pub has_component : Component → List Contribution → Bool
has_component c [] = false
has_component c (x ∷ xs) =
    if component_number x.component == component_number c then true else has_component c xs

unfoldable pub has_components : List Component → List Contribution → Bool
has_components [] xs = true
has_components (c ∷ cs) xs = has_component c xs && has_components cs xs

unfoldable pub total_of : List Contribution → ℤ
total_of [] = pos 0
total_of (x ∷ xs) = x.amount +ℤ total_of xs

-- `validate_score_audit`. Two integers are equal if neither is below the other.
unfoldable pub new_score_result : SignalScoreResult → Result ScoreError SignalScoreResult
new_score_result r =
    let sum = total_of r.score_breakdown +ℤ r.crt_score_contribution in
    if not (has_components all_components r.score_breakdown)
    then err missing_component
    else if leb_ℤ sum r.score && leb_ℤ r.score sum
    then ok r
    else err wrong_sum
