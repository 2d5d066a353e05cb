-- ===== src/Crt/Total.antt =====
-- When `analyze_crt` returns, and the range candle on which it raises.
use ai_trading_platform.Prelude.{
  ℕ, zero, suc, ◌+◌, ◌≤◌, ◌<◌, ◌≡◌, refl, true, false, Option, none, some, Option-cases, List, [],
  ◌∷◌, arith, All, ok, err, Result-cases, is_ok, is_ok->>=, Bool-cases, inl, inr, map,
}
use mathlib.Core.Path.{subst}
use ai_trading_platform.Timeframe.{Timeframe, Datetime, Timedelta, timeframe_duration}
use ai_trading_platform.Candle.{Candle}
use ai_trading_platform.Normalize.Defs.{has_duplicates, sorted, insert_sorted}
use ai_trading_platform.Structure.Sequences.{last}
use ai_trading_platform.Structure.Swings.{close_of}
use ai_trading_platform.Crt.Schema.{
  SweptSide, high_side, low_side, invalid_confirmation, SweepEvidence, Confirmation,
  new_confirmation,
}
use ai_trading_platform.Crt.Evidence.{
  index_of, candle_at, boundary, Sweep, check_sweep, validate_evidence, validate_candles,
}
use ai_trading_platform.Crt.Detector.{
  Group, members, add_evidence, group_evidence, sorted_groups, has_other_side, confirmation_of,
  Found, step_evidence, step_members, step_group, step_groups, analyze_crt, opposite, time_of,
  open_of,
}
use ai_trading_platform.Crt.Sound.{validate_evidence-checked, check_sweep-none}

-- A candle that can be the range of a confirmation.
pub record IsRanged (c : Candle) : Type 0 where
  pub low_positive : 0 < c.low
  pub open_positive : 0 < c.open_price
  pub wide : c.low < c.high

candle_at-All :
    (P : Candle → Type 0) (cs : List Candle) (i : ℕ) (c : Candle)
    → All P cs
    → candle_at cs i ≡ some c
    → P c
unfolding candle_at
candle_at-All P [] i c a h = cc
candle_at-All P (x ∷ xs) zero c a h = subst P (ground (arith, h)) a.0
candle_at-All P (x ∷ xs) (suc i) c a h = candle_at-All P xs i c a.1 h

validate_evidence-range :
    (e : SweepEvidence) (candles : List Candle) (duration : Timedelta) (cutoff : Option Datetime)
    (s : Sweep)
    → validate_evidence e candles duration cutoff ≡ ok s
    → (r : ℕ) × (candle_at candles r ≡ some s.range_candle)
unfolding validate_evidence
validate_evidence-range e candles duration cutoff s h =
    elim (Option-cases (index_of e.range_candle_timestamp 0 candles)) [
      | inl missing ↦ absurd (ground (arith, h, missing))
      | inr (r, found) ↦ (r, ground (arith, h, found))
    ]

check_sweep-closed :
    (e : SweepEvidence) (r m : Candle) (duration : Timedelta) (cutoff : Option Datetime)
    → check_sweep e r m duration cutoff ≡ none
    → m.timestamp + duration ≤ e.confirmed_at
unfolding check_sweep
check_sweep-closed e r m duration cutoff h = ground (arith, h)

new_confirmation-is_ok :
    (c : Confirmation) (third : Option Candle)
    → 0 < c.range_low
    → c.range_low < c.range_high
    → 0 < c.sweep_level
    → 0 < c.opposite_wick_reference
    → c.manipulation_closed_at ≤ c.confirmed_at
    → c.third_candle_timestamp ≡ time_of third
    → c.third_candle_open ≡ open_of third
    → ((x : Candle) → third ≡ some x → 0 < x.open_price)
    → is_ok (new_confirmation c) ≡ true
unfolding new_confirmation
new_confirmation-is_ok c none l w s o t time open_price p = ground arith
new_confirmation-is_ok c (some x) l w s o t time open_price p =
    let positive = p x refl in ground arith

boundary-positive : (side : SweptSide) (c : Candle) → IsRanged c → 0 < boundary side c
boundary-positive high_side c r = ground (arith, r.low_positive, r.wide)
boundary-positive low_side c r = r.low_positive

module _ (candles : List Candle) (timeframe : Timeframe) (cutoff : Option Datetime)
    (ranged : All IsRanged candles) where
  confirmation_of-is_ok :
      (e : SweepEvidence) (s : Sweep)
      → validate_evidence e candles (timeframe_duration timeframe) cutoff ≡ ok s
      → is_ok (new_confirmation (confirmation_of candles timeframe e s)) ≡ true
  unfolding confirmation_of
  confirmation_of-is_ok e s h =
      let checked = validate_evidence-checked e candles (timeframe_duration timeframe) cutoff s h in
      let level = check_sweep-none e s.range_candle s.manipulation_candle _ cutoff checked in
      let (i, at_range) =
        validate_evidence-range e candles (timeframe_duration timeframe) cutoff s h in
      let range_ok = candle_at-All IsRanged candles i s.range_candle ranged at_range in
      let swept = boundary-positive e.swept_side s.range_candle range_ok in
      new_confirmation-is_ok (confirmation_of candles timeframe e s)
        (candle_at candles (suc s.manipulation_index)) range_ok.low_positive range_ok.wide
        (omega (arith, swept, level.0))
        (boundary-positive (opposite e.swept_side) s.range_candle range_ok)
        (check_sweep-closed e s.range_candle s.manipulation_candle _ cutoff checked) refl refl
        (λ x t.
          (candle_at-All IsRanged candles (suc s.manipulation_index) x ranged t).open_positive)

  step_evidence-is_ok :
      (e : SweepEvidence) (found : Found)
      → is_ok (step_evidence candles timeframe cutoff e found) ≡ true
  unfolding step_evidence
  step_evidence-is_ok e found =
      elim (Result-cases (validate_evidence e candles (timeframe_duration timeframe) cutoff)) [
        | inl (code, v) ↦ rw (step_evidence, v) refl
        | inr (s, v) ↦
            rw (step_evidence, v)
              (is_ok->>= (new_confirmation (confirmation_of candles timeframe e s)) _
                (confirmation_of-is_ok e s v) (λ c n. refl))
      ]

  step_members-is_ok :
      (es : List SweepEvidence) (found : Found)
      → is_ok (step_members candles timeframe cutoff es found) ≡ true
  unfolding step_members
  step_members-is_ok [] found = refl
  step_members-is_ok (e ∷ es) found =
      is_ok->>= (step_members candles timeframe cutoff es found) _ (step_members-is_ok es found)
        (λ later m. step_evidence-is_ok e later)

  step_group-is_ok :
      (g : Group) (found : Found) → is_ok (step_group candles timeframe cutoff g found) ≡ true
  unfolding step_group
  step_group-is_ok g found = elim (Bool-cases (has_other_side g.first.swept_side g.others)) [
    | inl dual ↦ rw dual refl
    | inr one ↦ rw one (step_members-is_ok (members g) found)
  ]

  step_groups-is_ok : (gs : List Group) → is_ok (step_groups candles timeframe cutoff gs) ≡ true
  unfolding step_groups
  step_groups-is_ok [] = refl
  step_groups-is_ok (g ∷ gs) =
      is_ok->>= (step_groups candles timeframe cutoff gs) _ (step_groups-is_ok gs)
        (λ later m. step_group-is_ok g later)

-- The analysis returns on contiguous candles that are not flat, of positive prices, and on evidence
-- with distinct ids, whatever else the evidence says.
pub crt_total :
    (candles : List Candle) (timeframe : Timeframe) (sweeps : List SweepEvidence)
    → validate_candles (timeframe_duration timeframe) candles ≡ ok tt
    → has_duplicates (map (λ e. e.evidence_id) sweeps) ≡ false
    → All IsRanged candles
    → is_ok (analyze_crt candles timeframe true sweeps) ≡ true
unfolding analyze_crt
crt_total candles timeframe sweeps v d ranged =
    let cutoff = close_of (timeframe_duration timeframe) (last candles) in
    rw (v, d)
      (is_ok->>= (step_groups candles timeframe cutoff (sorted_groups (group_evidence sweeps []))) _
        (step_groups-is_ok candles timeframe cutoff ranged
          (sorted_groups (group_evidence sweeps [])))
        (λ found m. refl))

flat_confirmation :
    (candles : List Candle) (timeframe : Timeframe) (e : SweepEvidence) (s : Sweep)
    → s.range_candle.high ≡ s.range_candle.low
    → new_confirmation (confirmation_of candles timeframe e s) ≡ err invalid_confirmation
unfolding new_confirmation confirmation_of
flat_confirmation candles timeframe e s flat = ground (arith, flat)

flat_step :
    (candles : List Candle) (timeframe : Timeframe) (cutoff : Option Datetime) (e : SweepEvidence)
    (s : Sweep)
    → validate_evidence e candles (timeframe_duration timeframe) cutoff ≡ ok s
    → s.range_candle.high ≡ s.range_candle.low
    → step_evidence candles timeframe cutoff e ([], []) ≡ err invalid_confirmation
unfolding step_evidence
flat_step candles timeframe cutoff e s h flat =
    rw (step_evidence, h, flat_confirmation candles timeframe e s flat) refl

-- Valid evidence about a flat range candle (high equal to low) makes the analysis raise the
-- validator's error instead of rejecting the evidence.
pub crt_flat_range_raises :
    (candles : List Candle) (timeframe : Timeframe) (e : SweepEvidence) (s : Sweep)
    → validate_candles (timeframe_duration timeframe) candles ≡ ok tt
    → validate_evidence e candles
        (timeframe_duration timeframe)
        (close_of (timeframe_duration timeframe) (last candles))
      ≡ ok s
    → s.range_candle.high ≡ s.range_candle.low
    → analyze_crt candles timeframe true (e ∷ []) ≡ err invalid_confirmation
unfolding analyze_crt has_duplicates group_evidence add_evidence sorted_groups sorted insert_sorted
    step_groups step_group step_members has_other_side
crt_flat_range_raises candles timeframe e s v h flat =
    rw
      (
        v,
        flat_step candles timeframe (close_of (timeframe_duration timeframe) (last candles)) e s h
            flat,
      )
      refl
