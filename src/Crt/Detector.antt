-- ===== src/Crt/Detector.antt =====
-- `analyze_crt`.
use ai_trading_platform.Prelude.{
  suc, ◌+◌, Bool, true, false, ◌&&◌, ◌||◌, not, Option, none, some, List, [], ◌∷◌, ◌++◌, map, min,
  ◌==◌, if◌then◌else◌, Result, ok, err, ◌>>=◌, ◌>>◌, raise_if,
}
use ai_trading_platform.Timeframe.{Timeframe, Datetime, timeframe_duration}
use ai_trading_platform.Candle.{Candle, Price}
use ai_trading_platform.Normalize.Defs.{has_duplicates, sorted}
use ai_trading_platform.Structure.Sequences.{last}
use ai_trading_platform.Structure.Swings.{close_of}
use ai_trading_platform.Crt.Schema.{
  SweptSide, high_side, low_side, CrtDirection, bullish, bearish, EntryRelation,
  buy_below_third_candle_open, sell_above_third_candle_open, dual_side_sweep_needs_formalization,
  CrtError, evidence_ids_not_unique, SweepEvidence, Confirmation, new_confirmation, Rejection,
  CrtAnalysisResult,
}
use ai_trading_platform.Crt.Evidence.{
  validate_candles, candle_at, or_else, boundary, Sweep, validate_evidence,
}

-- One item of `grouped`, under its two timestamps.
pub record Group : Type 0 where
  pub range_time : Datetime
  pub manipulation_time : Datetime
  pub first : SweepEvidence
  pub others : List SweepEvidence

abbrev pub members : Group → List SweepEvidence
members g = g.first ∷ g.others

-- `grouped[...].append(evidence)`
unfoldable pub add_evidence : SweepEvidence → List Group → List Group
add_evidence e [] =
    record {
      range_time = e.range_candle_timestamp;
      manipulation_time = e.manipulation_candle_timestamp;
      first = e;
      others = [];
    }
    ∷ []
add_evidence e (g ∷ gs) =
    let rest = add_evidence e gs in
    if (g.range_time == e.range_candle_timestamp)
      && (g.manipulation_time == e.manipulation_candle_timestamp)
    then record g { others = g.others ++ e ∷ [] } ∷ gs
    else g ∷ rest

unfoldable pub group_evidence : List SweepEvidence → List Group → List Group
group_evidence [] gs = gs
group_evidence (e ∷ es) gs = group_evidence es (add_evidence e gs)

-- Sorted by the manipulation time, then the range time: a stable sort by each, the second key first.
unfoldable pub sorted_groups : List Group → List Group
sorted_groups gs = sorted (λ g. g.manipulation_time) (sorted (λ g. g.range_time) gs)

abbrev pub is_high : SweptSide → Bool
is_high high_side = true
is_high low_side = false

abbrev pub same_side : SweptSide → SweptSide → Bool
same_side high_side b = is_high b
same_side low_side b = not (is_high b)

-- `len({item.swept_side for item in evidence_group}) > 1`
unfoldable pub has_other_side : SweptSide → List SweepEvidence → Bool
has_other_side side [] = false
has_other_side side (e ∷ es) = not (same_side side e.swept_side) || has_other_side side es

unfoldable pub earliest : Datetime → List SweepEvidence → Datetime
earliest t [] = t
earliest t (e ∷ es) = earliest (min t e.confirmed_at) es

abbrev pub opposite : SweptSide → SweptSide
opposite high_side = low_side
opposite low_side = high_side

abbrev pub direction_of : SweptSide → CrtDirection
direction_of low_side = bullish
direction_of high_side = bearish

abbrev pub relation_of : SweptSide → EntryRelation
relation_of low_side = buy_below_third_candle_open
relation_of high_side = sell_above_third_candle_open

abbrev pub time_of : Option Candle → Option Datetime
time_of none = none
time_of (some c) = some c.timestamp

abbrev pub open_of : Option Candle → Option Price
open_of none = none
open_of (some c) = some c.open_price

-- The confirmation of valid evidence, before its validator.
unfoldable pub confirmation_of : List Candle → Timeframe → SweepEvidence → Sweep → Confirmation
confirmation_of candles timeframe e s =
    let third = candle_at candles (suc s.manipulation_index) in
    record {
      confirmation_id = e.evidence_id;
      direction = direction_of e.swept_side;
      timeframe = timeframe;
      range_candle_timestamp = s.range_candle.timestamp;
      range_high = s.range_candle.high;
      range_low = s.range_candle.low;
      manipulation_candle_timestamp = e.manipulation_candle_timestamp;
      manipulation_closed_at = s.manipulation_candle.timestamp + timeframe_duration timeframe;
      swept_side = e.swept_side;
      sweep_level = e.level;
      source_event_id = e.source_event_id;
      confirmed_at = e.confirmed_at;
      third_candle_timestamp = time_of third;
      third_candle_open = open_of third;
      entry_relation = relation_of e.swept_side;
      opposite_wick_reference = boundary (opposite e.swept_side) s.range_candle;
    }

abbrev pub Found : Type 0
Found = List Confirmation × List Rejection

module _ (candles : List Candle) (timeframe : Timeframe) (cutoff : Option Datetime) where
  -- The body of the inner loop, in front of what the rest of the loops adds.
  unfoldable pub step_evidence : SweepEvidence → Found → Result CrtError Found
  step_evidence e (cs, rs) =
      elim (validate_evidence e candles (timeframe_duration timeframe) cutoff) [
        | err code ↦ ok (
          cs,
          record {
            evidence_ids = e.evidence_id ∷ [];
            code = code;
            evaluated_at = or_else cutoff e.confirmed_at;
          }
              ∷ rs,
        )
        | ok s ↦ new_confirmation (confirmation_of candles timeframe e s) >>= λ c. ok (c ∷ cs, rs)
      ]

  unfoldable pub step_members : List SweepEvidence → Found → Result CrtError Found
  step_members [] found = ok found
  step_members (e ∷ es) found = step_members es found >>= step_evidence e

  unfoldable pub step_group : Group → Found → Result CrtError Found
  step_group g (cs, rs) =
      let rejection : Rejection = record {
        evidence_ids = sorted (λ i. i) (map (λ e. e.evidence_id) (members g));
        code = dual_side_sweep_needs_formalization;
        evaluated_at = or_else cutoff (earliest g.first.confirmed_at g.others);
      } in
      if has_other_side g.first.swept_side g.others
      then ok (cs, rejection ∷ rs)
      else step_members (members g) (cs, rs)

  unfoldable pub step_groups : List Group → Result CrtError Found
  step_groups [] = ok ([], [])
  step_groups (g ∷ gs) = step_groups gs >>= step_group g

unfoldable pub analyze_crt :
    List Candle
    → Timeframe
    → (enabled : Bool) → List SweepEvidence
    → Result CrtError CrtAnalysisResult
analyze_crt candles timeframe enabled sweeps =
    let cutoff = close_of (timeframe_duration timeframe) (last candles) in
    validate_candles (timeframe_duration timeframe) candles
    >> (if enabled
        then raise_if (has_duplicates (map (λ e. e.evidence_id) sweeps)) evidence_ids_not_unique
          >> (step_groups candles timeframe cutoff (sorted_groups (group_evidence sweeps []))
              >>= λ found. ok (record {
                enabled = true;
                timeframe = timeframe;
                data_cutoff_at = cutoff;
                confirmations =
                    sorted (λ c. c.confirmed_at) (sorted (λ c. c.confirmation_id) found.0);
                rejections = found.1;
              }))
        else ok (record {
          enabled = false;
          timeframe = timeframe;
          data_cutoff_at = cutoff;
          confirmations = [];
          rejections = [];
        }))
