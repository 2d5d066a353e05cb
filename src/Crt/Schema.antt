-- ===== src/Crt/Schema.antt =====
-- The records of backend/app/schemas/crt.py. Ids are texts that the code compares for equality and
-- order only: numbers stand for them in that order. `signal_uses` and `weight` of the configuration
-- are read by no code of the detector.
use ai_trading_platform.Prelude.{
  ℕ, Bool, true, false, not, Option, none, some, List, ltb, leb, is_some, Result, ok, ◌>>◌,
  raise_if, ◌||◌,
}
use ai_trading_platform.Timeframe.{Timeframe, Datetime}
use ai_trading_platform.Candle.{Price}

pub data SweptSide : Type 0 where
  high_side low_side : SweptSide

pub data CrtDirection : Type 0 where
  bullish bearish : CrtDirection

pub data EntryRelation : Type 0 where
  buy_below_third_candle_open sell_above_third_candle_open : EntryRelation

pub data RejectionCode : Type 0 where
  unknown_range_candle unknown_manipulation_candle non_consecutive_candles : RejectionCode
  level_does_not_match_range_boundary sweep_confirmed_before_candle_close : RejectionCode
  evidence_not_yet_confirmed dual_side_sweep_needs_formalization : RejectionCode

-- `CRTInputError`, and the `ValueError` of a confirmation that its validator refuses.
pub data CrtError : Type 0 where
  not_ascending timeframe_gap evidence_ids_not_unique invalid_confirmation : CrtError

pub record SweepEvidence : Type 0 where
  pub evidence_id : ℕ
  pub source_event_id : ℕ
  pub range_candle_timestamp : Datetime
  pub manipulation_candle_timestamp : Datetime
  pub swept_side : SweptSide
  pub level : Price
  pub confirmed_at : Datetime

pub record Confirmation : Type 0 where
  pub confirmation_id : ℕ
  pub direction : CrtDirection
  pub timeframe : Timeframe
  pub range_candle_timestamp : Datetime
  pub range_high : Price
  pub range_low : Price
  pub manipulation_candle_timestamp : Datetime
  pub manipulation_closed_at : Datetime
  pub swept_side : SweptSide
  pub sweep_level : Price
  pub source_event_id : ℕ
  pub confirmed_at : Datetime
  pub third_candle_timestamp : Option Datetime
  pub third_candle_open : Option Price
  pub entry_relation : EntryRelation
  pub opposite_wick_reference : Price

abbrev pub same : Bool → Bool → Bool
same true b = b
same false b = not b

abbrev pub is_price : Option Price → Bool
is_price none = true
is_price (some p) = ltb 0 p

abbrev pub any_zero : Confirmation → Bool
any_zero c =
    leb c.range_high 0
    || (leb c.range_low 0
        || (leb c.sweep_level 0
            || (leb c.opposite_wick_reference 0 || not (is_price c.third_candle_open))))

-- The bounds of the fields, then `validate_reference_roles`.
unfoldable pub new_confirmation : Confirmation → Result CrtError Confirmation
new_confirmation c = do
  raise_if (any_zero c) invalid_confirmation
  raise_if (leb c.range_high c.range_low) invalid_confirmation
  raise_if (not (same (is_some c.third_candle_timestamp) (is_some c.third_candle_open)))
      invalid_confirmation
  raise_if (ltb c.confirmed_at c.manipulation_closed_at) invalid_confirmation
  ok c

pub record Rejection : Type 0 where
  pub evidence_ids : List ℕ
  pub code : RejectionCode
  pub evaluated_at : Datetime

pub record CrtAnalysisResult : Type 0 where
  pub enabled : Bool
  pub timeframe : Timeframe
  pub data_cutoff_at : Option Datetime
  pub confirmations : List Confirmation
  pub rejections : List Rejection
