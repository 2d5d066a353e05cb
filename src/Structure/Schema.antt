-- ===== src/Structure/Schema.antt =====
-- The records of backend/app/schemas/structure.py. The id of a swing, a text made of its kind and its
-- pivot's timestamp, is kept as those two.
use ai_trading_platform.Prelude.{ℕ, Bool, true, false, ◌&&◌, not, Option, List, ltb, leb, ◌==◌}
use ai_trading_platform.Timeframe.{Datetime}
use ai_trading_platform.Candle.{Price}

pub data SwingKind : Type 0 where
  high low : SwingKind

pub data SwingTiePolicy : Type 0 where
  strict earliest latest : SwingTiePolicy

pub data CandidateResolution : Type 0 where
  pending confirmed rejected : CandidateResolution

pub data TrendState : Type 0 where
  bullish bearish range insufficient_data : TrendState

pub data StructureBreakBasis : Type 0 where
  close wick : StructureBreakBasis

pub data StructureEventType : Type 0 where
  bos mss break : StructureEventType

pub data StructureDirection : Type 0 where
  upward downward : StructureDirection

pub record MarketStructureConfig : Type 0 where
  pub tick_size : ℕ
  pub swing_left_bars : ℕ
  pub swing_right_bars : ℕ
  pub swing_tie_policy : SwingTiePolicy
  pub trend_points_per_side : ℕ
  pub structure_equality_tolerance_ticks : ℕ
  pub structure_break_basis : StructureBreakBasis
  pub structure_break_buffer_ticks : ℕ

-- The bounds of the fields.
unfoldable pub valid_config : MarketStructureConfig → Bool
valid_config c =
    ltb 0 c.tick_size
    && (leb 1 c.swing_left_bars && (leb 1 c.swing_right_bars && leb 2 c.trend_points_per_side))

pub record SwingId : Type 0 where
  pub id_kind : SwingKind
  pub id_timestamp : Datetime

abbrev pub same_kind : SwingKind → SwingKind → Bool
same_kind high high = true
same_kind low low = true
same_kind a b = false

abbrev pub same_id : SwingId → SwingId → Bool
same_id a b = same_kind a.id_kind b.id_kind && (a.id_timestamp == b.id_timestamp)

pub record SwingCandidate : Type 0 where
  pub candidate_id : SwingId
  pub kind : SwingKind
  pub pivot_index : ℕ
  pub pivot_timestamp : Datetime
  pub price : Price
  pub candidate_at : Datetime
  pub required_right_bars : ℕ
  pub observed_right_bars : ℕ
  pub resolution : CandidateResolution
  pub resolved_at : Option Datetime

pub record ConfirmedSwing : Type 0 where
  pub swing_id : SwingId
  pub source_candidate_id : SwingId
  pub kind : SwingKind
  pub pivot_index : ℕ
  pub pivot_timestamp : Datetime
  pub price : Price
  pub candidate_at : Datetime
  pub confirmed_at : Datetime
  pub left_evidence_timestamps : List Datetime
  pub right_evidence_timestamps : List Datetime

-- `display_alias` is the one alias there is, or not.
pub record StructureBreakEvent : Type 0 where
  pub event_type : StructureEventType
  pub direction : StructureDirection
  pub price : Price
  pub timestamp : Datetime
  pub broken_structure_id : SwingId
  pub confirmation_type : StructureBreakBasis
  pub confirmed_at : Datetime
  pub display_alias : Bool
  pub trend_before_break : TrendState

-- The code of a rejection is always `AMBIGUOUS_DUAL_STRUCTURE_BREAK`.
pub record StructureRejection : Type 0 where
  pub timestamp : Datetime
  pub confirmed_at : Datetime
  pub up_structure_id : SwingId
  pub down_structure_id : SwingId

abbrev pub is_mss : StructureEventType → Bool
is_mss mss = true
is_mss t = false

-- `validate_event_semantics`
unfoldable pub valid_event : StructureBreakEvent → Bool
valid_event e =
    ltb 0 e.price
    && (ltb e.timestamp e.confirmed_at
        && (not (is_mss e.event_type && not e.display_alias)
            && not (not (is_mss e.event_type) && e.display_alias)))
