-- ===== src/Crt/Sound.antt =====
-- What a confirmation of `analyze_crt` is worth.
use ai_trading_platform.Prelude.{
  ◌≤◌, ◌<◌, ◌≡◌, refl, Bool, true, false, Option, none, some, List, [], ◌∷◌, arith, All, ok,
  Ensures, Ensures->>=, Ensures-ok, Ensures-if, Result-cases, ◌∙◌, inl, inr, raise_if, map,
}
use mathlib.Core.Path.{subst}
use ai_trading_platform.Timeframe.{Timeframe, Datetime, Timedelta, timeframe_duration}
use ai_trading_platform.Candle.{Candle, Price}
use ai_trading_platform.Normalize.Defs.{has_duplicates}
use ai_trading_platform.Normalize.Sorting.{All-sorted, Ascending, Ascending-sorted}
use ai_trading_platform.Structure.Sequences.{last}
use ai_trading_platform.Structure.Swings.{close_of}
use ai_trading_platform.Crt.Schema.{
  SweptSide, high_side, low_side, evidence_ids_not_unique, SweepEvidence, Confirmation,
  new_confirmation, CrtAnalysisResult,
}
use ai_trading_platform.Crt.Evidence.{
  boundary, is_past, Sweep, check_sweep, judged, validate_evidence, validate_candles,
}
use ai_trading_platform.Crt.Detector.{
  Group, members, has_other_side, confirmation_of, Found, step_evidence, step_members, step_group,
  step_groups, sorted_groups, group_evidence, analyze_crt, opposite,
}

abbrev pub range_bound : SweptSide → Confirmation → Price
range_bound high_side c = c.range_high
range_bound low_side c = c.range_low

-- The sweep is of a boundary of a range that is not flat, the target is the other boundary, and the
-- sweep was confirmed after its candle closed and by the cutoff.
pub record IsSupported (cutoff : Option Datetime) (c : Confirmation) : Type 0 where
  pub by_cutoff : is_past cutoff c.confirmed_at ≡ false
  pub after_close : c.manipulation_closed_at ≤ c.confirmed_at
  pub wide : c.range_low < c.range_high
  pub swept : c.sweep_level ≡ range_bound c.swept_side c
  pub target : c.opposite_wick_reference ≡ range_bound (opposite c.swept_side) c

judged-ok : (s t : Sweep) (o : Option _) → judged s o ≡ ok t → (s ≡ t) × (o ≡ none)
judged-ok s t none h = ground arith
judged-ok s t (some code) h = cc

pub validate_evidence-checked :
    (e : SweepEvidence) (candles : List Candle) (duration : Timedelta) (cutoff : Option Datetime)
    (s : Sweep)
    → validate_evidence e candles duration cutoff ≡ ok s
    → check_sweep e s.range_candle s.manipulation_candle duration cutoff ≡ none
unfolding validate_evidence
validate_evidence-checked e candles duration cutoff s h = ground (arith, h)

new_confirmation-ok :
    (d c : Confirmation)
    → new_confirmation d ≡ ok c
    → (d ≡ c) × (d.range_low < d.range_high) × (d.manipulation_closed_at ≤ d.confirmed_at)
unfolding new_confirmation
new_confirmation-ok d c h = ground (arith, h)

pub check_sweep-none :
    (e : SweepEvidence) (r m : Candle) (duration : Timedelta) (cutoff : Option Datetime)
    → check_sweep e r m duration cutoff ≡ none
    → (e.level ≡ boundary e.swept_side r) × (is_past cutoff e.confirmed_at ≡ false)
unfolding check_sweep
check_sweep-none e r m duration cutoff h = ground (arith, h)

boundary-range_bound :
    (candles : List Candle) (timeframe : Timeframe) (e : SweepEvidence) (s : Sweep)
    (side : SweptSide)
    → boundary side s.range_candle ≡ range_bound side (confirmation_of candles timeframe e s)
unfolding confirmation_of
boundary-range_bound candles timeframe e s high_side = refl
boundary-range_bound candles timeframe e s low_side = refl

confirmation_of-IsSupported :
    (e : SweepEvidence) (candles : List Candle) (timeframe : Timeframe) (cutoff : Option Datetime)
    (s : Sweep) (c : Confirmation)
    → check_sweep e s.range_candle s.manipulation_candle (timeframe_duration timeframe) cutoff
      ≡ none
    → new_confirmation (confirmation_of candles timeframe e s) ≡ ok c
    → IsSupported cutoff c
unfolding confirmation_of
confirmation_of-IsSupported e candles timeframe cutoff s c h n =
    let valid = new_confirmation-ok (confirmation_of candles timeframe e s) c n in
    let checked =
      check_sweep-none e s.range_candle s.manipulation_candle (timeframe_duration timeframe) cutoff
        h in
    subst (IsSupported cutoff) valid.0 (record {
      by_cutoff = checked.1;
      after_close = valid.2;
      wide = valid.1;
      swept = checked.0 ∙ boundary-range_bound candles timeframe e s e.swept_side;
      target = boundary-range_bound candles timeframe e s (opposite e.swept_side);
    })

abbrev AllSupported : Option Datetime → Found → Type 0
AllSupported cutoff found = All (IsSupported cutoff) found.0

module _ (candles : List Candle) (timeframe : Timeframe) (cutoff : Option Datetime) where
  step_evidence-AllSupported :
      (e : SweepEvidence) (found : Found)
      → AllSupported cutoff found
      → Ensures (AllSupported cutoff) (step_evidence candles timeframe cutoff e found)
  unfolding step_evidence
  step_evidence-AllSupported e found a =
      elim (Result-cases (validate_evidence e candles (timeframe_duration timeframe) cutoff)) [
        | inl (code, v) ↦ rw (step_evidence, v) a
        | inr (s, v) ↦
            rw (step_evidence, v)
              (Ensures->>= (AllSupported cutoff)
                (new_confirmation (confirmation_of candles timeframe e s)) _
                (λ c n. (
                  confirmation_of-IsSupported e candles timeframe cutoff s c
                      (validate_evidence-checked e candles (timeframe_duration timeframe) cutoff s
                        v)
                      n,
                  a,
                )))
      ]

  step_members-AllSupported :
      (es : List SweepEvidence) (found : Found)
      → AllSupported cutoff found
      → Ensures (AllSupported cutoff) (step_members candles timeframe cutoff es found)
  unfolding step_members
  step_members-AllSupported [] found a = a
  step_members-AllSupported (e ∷ es) found a =
      Ensures->>= (AllSupported cutoff) (step_members candles timeframe cutoff es found) _
        (λ later m.
          step_evidence-AllSupported e later
            (Ensures-ok (AllSupported cutoff) _ later (step_members-AllSupported es found a) m))

  step_group-AllSupported :
      (g : Group) (found : Found)
      → AllSupported cutoff found
      → Ensures (AllSupported cutoff) (step_group candles timeframe cutoff g found)
  unfolding step_group
  step_group-AllSupported g found a =
      Ensures-if (AllSupported cutoff) (has_other_side g.first.swept_side g.others) _ _ (λ h. a)
        (λ h. step_members-AllSupported (members g) found a)

  step_groups-AllSupported :
      (gs : List Group) → Ensures (AllSupported cutoff) (step_groups candles timeframe cutoff gs)
  unfolding step_groups
  step_groups-AllSupported [] = tt
  step_groups-AllSupported (g ∷ gs) =
      Ensures->>= (AllSupported cutoff) (step_groups candles timeframe cutoff gs) _ (λ later m.
        step_group-AllSupported g later
          (Ensures-ok (AllSupported cutoff) _ later (step_groups-AllSupported gs) m))

-- The confirmations of a result, each supported by the cutoff, in the order of their instants.
abbrev pub IsSoundResult : CrtAnalysisResult → Type 0
IsSoundResult r =
    All (IsSupported r.data_cutoff_at) r.confirmations
    × Ascending (λ c. c.confirmed_at) r.confirmations

analyze_crt-IsSoundResult :
    (candles : List Candle) (timeframe : Timeframe) (enabled : Bool) (sweeps : List SweepEvidence)
    → Ensures IsSoundResult (analyze_crt candles timeframe enabled sweeps)
unfolding analyze_crt
analyze_crt-IsSoundResult candles timeframe false sweeps =
    Ensures->>= IsSoundResult (validate_candles (timeframe_duration timeframe) candles) _
      (λ u h. (tt, tt))
analyze_crt-IsSoundResult candles timeframe true sweeps =
    let cutoff = close_of (timeframe_duration timeframe) (last candles) in
    let groups = sorted_groups (group_evidence sweeps []) in
    Ensures->>= IsSoundResult (validate_candles (timeframe_duration timeframe) candles) _ (λ u h.
      Ensures->>= IsSoundResult
        (raise_if (has_duplicates (map (λ e. e.evidence_id) sweeps)) evidence_ids_not_unique) _
        (λ v k.
          Ensures->>= IsSoundResult (step_groups candles timeframe cutoff groups) _ (λ found m.
            let supported =
              Ensures-ok (AllSupported cutoff) _ found
                (step_groups-AllSupported candles timeframe cutoff groups) m in
            (
              All-sorted (λ c. c.confirmed_at) (IsSupported cutoff) _
                  (All-sorted (λ c. c.confirmation_id) (IsSupported cutoff) found.0 supported),
              Ascending-sorted (λ c. c.confirmed_at) _,
            ))))

-- Every confirmation of a result is of a sweep confirmed after its candle closed and by the data
-- cutoff, at a boundary of a range that is not flat, with the other boundary as target; and the
-- confirmations are in the order of their instants.
pub crt_confirmations-IsSupported :
    (candles : List Candle) (timeframe : Timeframe) (enabled : Bool) (sweeps : List SweepEvidence)
    (r : CrtAnalysisResult)
    → analyze_crt candles timeframe enabled sweeps ≡ ok r
    → All (IsSupported r.data_cutoff_at) r.confirmations
      × Ascending (λ c. c.confirmed_at) r.confirmations
crt_confirmations-IsSupported candles timeframe enabled sweeps r h =
    Ensures-ok IsSoundResult (analyze_crt candles timeframe enabled sweeps) r
      (analyze_crt-IsSoundResult candles timeframe enabled sweeps) h
