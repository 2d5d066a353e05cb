-- ===== src/Resampling/Cutoff.antt =====
-- The cutoff: nothing later goes in, and no candle that ends later comes out.
use ai_trading_platform.Prelude.{
  ◌+◌, ◌≤◌, ◌<◌, ◌≡◌, ◌∙◌, sym, ap, refl, some, Option-cases, List, [], ◌∷◌, ◌++◌, arith, All,
  Result, ok, err, Result-cases, Ensures, Ensures-ok, Ensures->>=, Ensures-if, Bool-cases, inl, inr,
  ◌==◌,
}
use mathlib.Core.Path.{subst}
use ai_trading_platform.Timeframe.{Timeframe, Datetime, Timedelta, timeframe_duration}
use ai_trading_platform.Candle.{Candle, new_candle}
use ai_trading_platform.Normalize.Defs.{MarketDataError, sorted, normalize_candle_order}
use ai_trading_platform.Structure.Sequences.{filter, filter-append, append_nil}
use ai_trading_platform.Resampling.Defs.{
  not_a_multiple, closes_by, Bucket, derived_of, derive_bucket, derive_buckets, built,
  resample_normalized, resample_eligible, same_candles, resample_canonical_candles,
}

filter-none :
    (cutoff : Datetime) (duration : Timedelta) (future : List Candle)
    → All (λ c. cutoff < c.timestamp + duration) future
    → filter (closes_by cutoff duration) future ≡ []
unfolding filter
filter-none cutoff duration [] a = refl
filter-none cutoff duration (c ∷ cs) a = ground (arith, a.0, filter-none cutoff duration cs a.1)

-- No look-ahead: rows that close after the cutoff change neither the result nor an error.
pub resample_ignores_future :
    (candles future : List Candle) (source target : Timeframe) (cutoff : Datetime)
    → All (λ c. cutoff < c.timestamp + timeframe_duration source) future
    → resample_canonical_candles (candles ++ future) source target cutoff
      ≡ resample_canonical_candles candles source target cutoff
unfolding resample_canonical_candles
resample_ignores_future candles future source target cutoff a =
    let closed = closes_by cutoff (timeframe_duration source) in
    let same : filter closed (candles ++ future) ≡ filter closed candles =
      filter-append closed candles future
      ∙ (ap (λ xs. filter closed candles ++ xs)
            (filter-none cutoff (timeframe_duration source) future a)
          ∙ append_nil (filter closed candles)) in
    rw same refl

-- A candle that has ended by the cutoff.
abbrev pub IsEnded : Datetime → Timedelta → Candle → Type 0
IsEnded cutoff duration c = c.timestamp + duration ≤ cutoff

filter-IsEnded :
    (cutoff : Datetime) (duration : Timedelta) (cs : List Candle)
    → All (IsEnded cutoff duration) (filter (closes_by cutoff duration) cs)
unfolding filter
filter-IsEnded cutoff duration [] = tt
filter-IsEnded cutoff duration (c ∷ cs) =
    let rest = filter-IsEnded cutoff duration cs in
    elim (Bool-cases (closes_by cutoff duration c)) [
      | inl by_then ↦ rw by_then (ground (arith, by_then), rest)
      | inr later ↦ rw later rest
    ]

derived_of-timestamp :
    (start : Datetime) (cs : List Candle) (c : Candle)
    → derived_of start cs ≡ some c
    → c.timestamp ≡ start
derived_of-timestamp start [] c h = cc
derived_of-timestamp start (x ∷ xs) c h = ground arith

derive_bucket-IsEnded :
    (source target : Timedelta) (cutoff : Datetime) (b : Bucket) (c : Candle)
    → derive_bucket source target cutoff b ≡ some c
    → IsEnded cutoff target c
unfolding derive_bucket
derive_bucket-IsEnded source target cutoff b c h =
    let constituents = sorted (λ (x : Candle). x.timestamp) (b.first ∷ b.others) in
    ground (arith, h, derived_of-timestamp b.start constituents c)

new_candle-same : (c d : Candle) → new_candle c ≡ ok d → c ≡ d
unfolding new_candle
new_candle-same c d h = ground (arith, h)

built-IsEnded :
    (cutoff : Datetime) (target : Timedelta) (c : Candle) (cs : List Candle)
    → IsEnded cutoff target c
    → All (IsEnded cutoff target) cs
    → Ensures (All (IsEnded cutoff target)) (built (new_candle c) cs)
built-IsEnded cutoff target c cs e a = elim (Result-cases (new_candle c)) [
  | inl (x, n) ↦ rw n tt
  | inr (d, n) ↦ rw n (rw (sym (new_candle-same c d n)) e, a)
]

derive_buckets-IsEnded :
    (source target : Timedelta) (cutoff : Datetime) (bs : List Bucket)
    → Ensures (All (IsEnded cutoff target)) (derive_buckets source target cutoff bs)
unfolding derive_buckets
derive_buckets-IsEnded source target cutoff [] = tt
derive_buckets-IsEnded source target cutoff (b ∷ bs) =
    let rest = derive_buckets-IsEnded source target cutoff bs in
    elim (Option-cases (derive_bucket source target cutoff b)) [
      | inl passed ↦ rw (derive_buckets, passed) rest
      | inr (c, derived) ↦
          rw (derive_buckets, derived)
            (Ensures->>= (All (IsEnded cutoff target)) (derive_buckets source target cutoff bs) _
              (λ cs m.
                built-IsEnded cutoff target c cs
                  (derive_bucket-IsEnded source target cutoff b c derived)
                  (Ensures-ok (All (IsEnded cutoff target)) _ cs rest m)))
    ]

resample_normalized-IsEnded :
    (source target : Timeframe) (cutoff : Datetime) (cs : List Candle)
    (m : Result MarketDataError (List Candle))
    → All (IsEnded cutoff (timeframe_duration source)) cs
    → Ensures
        (All (IsEnded cutoff (timeframe_duration target)))
        (resample_normalized source target cutoff cs m)
resample_normalized-IsEnded source target cutoff cs (err e) a = tt
resample_normalized-IsEnded source target cutoff cs (ok n) a =
    elim (Bool-cases (same_candles n cs)) [
      | inr different ↦ rw different tt
      | inl same ↦ elim (Bool-cases (timeframe_duration target == timeframe_duration source)) [
        | inl one ↦ rw (same, one) (subst (λ d. All (IsEnded cutoff d) cs) (ground (arith, one)) a)
        | inr longer ↦
            rw (same, longer)
              (derive_buckets-IsEnded (timeframe_duration source) (timeframe_duration target) cutoff
                _)
      ]
    ]

resample_eligible-IsEnded :
    (source target : Timeframe) (cutoff : Datetime) (cs : List Candle)
    → All (IsEnded cutoff (timeframe_duration source)) cs
    → Ensures
        (All (IsEnded cutoff (timeframe_duration target)))
        (resample_eligible source target cutoff cs)
resample_eligible-IsEnded source target cutoff [] a = tt
resample_eligible-IsEnded source target cutoff (c ∷ cs) a =
    resample_normalized-IsEnded source target cutoff (c ∷ cs)
      (normalize_candle_order (λ (x : Candle). x.timestamp) (c ∷ cs) source) a

resample-IsEnded :
    (candles : List Candle) (source target : Timeframe) (cutoff : Datetime)
    → Ensures
        (All (IsEnded cutoff (timeframe_duration target)))
        (resample_canonical_candles candles source target cutoff)
unfolding resample_canonical_candles
resample-IsEnded candles source target cutoff =
    Ensures-if (All (IsEnded cutoff (timeframe_duration target))) _ (err not_a_multiple) _ (λ h. tt)
      (λ h.
        resample_eligible-IsEnded source target cutoff _
          (filter-IsEnded cutoff (timeframe_duration source) candles))

-- Every candle of a result has ended by the cutoff, in the target timeframe.
pub resample_ends_by_cutoff :
    (candles : List Candle) (source target : Timeframe) (cutoff : Datetime) (derived : List Candle)
    → resample_canonical_candles candles source target cutoff ≡ ok derived
    → All (λ c. c.timestamp + timeframe_duration target ≤ cutoff) derived
resample_ends_by_cutoff candles source target cutoff derived h =
    Ensures-ok (All (IsEnded cutoff (timeframe_duration target))) _ derived
      (resample-IsEnded candles source target cutoff) h
