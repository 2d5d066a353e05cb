-- ===== src/Crt/Evidence.antt =====
-- `_validate_candles` and `_validate_evidence`.
use ai_trading_platform.Prelude.{
  ℕ, zero, suc, ◌+◌, Bool, true, not, Option, none, some, List, [], ◌∷◌, ltb, leb, ◌==◌,
  if◌then◌else◌, Result, ok, err,
}
use ai_trading_platform.Timeframe.{Datetime, Timedelta}
use ai_trading_platform.Candle.{Candle, Price}
use ai_trading_platform.Crt.Schema.{
  SweptSide, high_side, low_side, RejectionCode, unknown_range_candle, unknown_manipulation_candle,
  non_consecutive_candles, level_does_not_match_range_boundary, sweep_confirmed_before_candle_close,
  evidence_not_yet_confirmed, CrtError, not_ascending, timeframe_gap, SweepEvidence,
}

unfoldable pub validate_candles : Timedelta → List Candle → Result CrtError (Unit {0})
validate_candles duration (a ∷ b ∷ cs) =
    if leb b.timestamp a.timestamp
    then err not_ascending
    else if b.timestamp == a.timestamp + duration
    then validate_candles duration (b ∷ cs)
    else err timeframe_gap
validate_candles duration cs = ok tt

-- `by_timestamp.get(timestamp)`: in the dict the last index of a timestamp stays.
unfoldable pub index_of : Datetime → ℕ → List Candle → Option ℕ
index_of t i [] = none
index_of t i (c ∷ cs) = elim (index_of t (suc i) cs) [
  | some k ↦ some k
  | none ↦ if c.timestamp == t then some i else none
]

-- `candles[index]`
unfoldable pub candle_at : List Candle → ℕ → Option Candle
candle_at [] i = none
candle_at (c ∷ cs) zero = some c
candle_at (c ∷ cs) (suc i) = candle_at cs i

-- `cutoff or other`: an aware datetime is true.
abbrev pub or_else : Option Datetime → Datetime → Datetime
or_else none t = t
or_else (some c) t = c

abbrev pub boundary : SweptSide → Candle → Price
boundary high_side c = c.high
boundary low_side c = c.low

abbrev pub is_past : Option Datetime → Datetime → Bool
is_past none t = true
is_past (some c) t = ltb c t

-- The candles that valid evidence is about.
pub record Sweep : Type 0 where
  pub range_candle : Candle
  pub manipulation_candle : Candle
  pub manipulation_index : ℕ

-- The checks once both candles are known.
unfoldable pub check_sweep :
    SweepEvidence → Candle → Candle → Timedelta → Option Datetime → Option RejectionCode
check_sweep e range_candle manipulation_candle duration cutoff =
    if not (e.level == boundary e.swept_side range_candle)
    then some level_does_not_match_range_boundary
    else if ltb e.confirmed_at (manipulation_candle.timestamp + duration)
    then some sweep_confirmed_before_candle_close
    else if is_past cutoff e.confirmed_at
    then some evidence_not_yet_confirmed
    else none

abbrev pub judged : Sweep → Option RejectionCode → Result RejectionCode Sweep
judged s none = ok s
judged s (some code) = err code

-- `_validate_evidence`: the code of a rejection, or the candles that `analyze_crt` looks up again
-- where there is none. The last case, an index out of range, does not arise from `index_of`.
unfoldable pub validate_evidence :
    SweepEvidence → List Candle → Timedelta → Option Datetime → Result RejectionCode Sweep
validate_evidence e candles duration cutoff = elim (index_of e.range_candle_timestamp 0 candles) [
  | none ↦ err unknown_range_candle
  | some r ↦ elim (index_of e.manipulation_candle_timestamp 0 candles) [
    | none ↦ err unknown_manipulation_candle
    | some m ↦
        if not (m == suc r) then err non_consecutive_candles else elim (candle_at candles r) [
          | none ↦ err unknown_range_candle
          | some range_candle ↦ elim (candle_at candles m) [
            | none ↦ err unknown_manipulation_candle
            | some manipulation_candle ↦
                judged
                  (record {
                    range_candle = range_candle;
                    manipulation_candle = manipulation_candle;
                    manipulation_index = m;
                  })
                  (check_sweep e range_candle manipulation_candle duration cutoff)
          ]
        ]
  ]
]
