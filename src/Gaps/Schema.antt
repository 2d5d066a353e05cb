-- ===== src/Gaps/Schema.antt =====
-- backend/app/schemas/fvg.py. A fraction is a whole number of parts, of which `unit` make one.
use ai_trading_platform.Prelude.{
  ℕ, Bool, true, false, ◌&&◌, not, Option, List, ltb, leb, Result, ok, err, is_some, if◌then◌else◌,
}
use ai_trading_platform.Timeframe.{Datetime}

pub data ZoneType : Type 0 where
  fvg ifvg : ZoneType

pub data GapDirection : Type 0 where
  bullish bearish : GapDirection

pub data ZoneStatus : Type 0 where
  open_zone partial_zone filled_zone invalidated_zone : ZoneStatus

pub data GapState : Type 0 where
  active partially_filled filled inverted invalidated expired : GapState

pub data FillBasis : Type 0 where
  wick close_price : FillBasis

pub data GapEventType : Type 0 where
  fvg_created fvg_retest fvg_filled fvg_inverted fvg_expired : GapEventType
  ifvg_created ifvg_retest ifvg_filled ifvg_invalidated ifvg_expired : GapEventType

-- The parts that the text of an id is made of.
pub data ZoneId : Type 0 where
  fvg_id : GapDirection → Datetime → ZoneId
  ifvg_id : GapDirection → Datetime → ZoneId → ZoneId

pub record FvgConfig : Type 0 where
  pub tick_size : ℕ
  pub min_gap_ticks : ℕ
  pub min_gap_atr_ratio : ℕ
  pub require_middle_candle_direction : Bool
  pub fill_basis : FillBasis
  pub full_fill_fraction : ℕ
  pub max_age_bars : ℕ
  pub max_retests : ℕ
  pub ifvg_enabled : Bool
  pub inversion_buffer_ticks : ℕ

pub record GapEvent : Type 0 where
  pub event_type : GapEventType
  pub event_zone : ZoneId
  pub bar_timestamp : Datetime
  pub occurred_at : Datetime
  pub from_state : Option GapState
  pub to_state : GapState
  pub event_fill : ℕ
  pub event_retests : ℕ

pub data RejectionCode : Type 0 where
  atr_unavailable impossible_dual_formation : RejectionCode

pub record GapRejection : Type 0 where
  pub code : RejectionCode
  pub third_candle_timestamp : Datetime
  pub rejected_at : Datetime

pub data FvgError : Type 0 where
  not_aligned unordered_candles timeframe_gap atr_length atr_timestamps : FvgError
  out_of_bounds empty_zone missing_origin unexpected_origin : FvgError

pub record GapZone : Type 0 where
  pub zone_id : ZoneId
  pub zone_type : ZoneType
  pub direction : GapDirection
  pub lower : ℕ
  pub upper : ℕ
  pub created_at : Datetime
  pub confirmed_at : Datetime
  pub status : ZoneStatus
  pub lifecycle_state : GapState
  pub source_candle_timestamps : List Datetime
  pub origin : Option ZoneId
  pub fill_fraction : ℕ
  pub retest_count : ℕ
  pub last_updated_at : Datetime
  pub lifecycle : List GapEvent

abbrev pub is_ifvg : ZoneType → Bool
is_ifvg fvg = false
is_ifvg ifvg = true

-- The bounds of the fields, and `validate_zone`.
unfoldable pub new_gap_zone : (unit : ℕ) → GapZone → Result FvgError GapZone
new_gap_zone unit z =
    if ltb 0 z.lower && (ltb 0 z.upper && leb z.fill_fraction unit)
    then if leb z.upper z.lower
      then err empty_zone
      else if is_ifvg z.zone_type && not (is_some z.origin)
      then err missing_origin
      else if not (is_ifvg z.zone_type) && is_some z.origin
      then err unexpected_origin
      else ok z
    else err out_of_bounds
