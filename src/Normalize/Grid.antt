-- ===== src/Normalize/Grid.antt =====
-- What the validation accepts: the grid of a timeframe, a run of bucket starts one duration apart.
use ai_trading_platform.Prelude.{ℕ, ◌+◌, ◌<◌, ◌≡◌, ◌≢◌, false, none, List, [], ◌∷◌, arith, refl, ok}
use ai_trading_platform.Timeframe.{
  Timeframe, one_minute, Datetime, Timedelta, timeframe_duration, timeframe_bucket_start,
}
use ai_trading_platform.Normalize.Defs.{
  mem_time, has_duplicates, is_out_of_order, validate_candle_alignment, validate_spacing,
  validate_ordered,
}

-- Each instant is `interval` after the one before it.
abbrev pub IsSpaced : Timedelta → List Datetime → Type 0
IsSpaced interval (a ∷ b ∷ ts) = (b ≡ a + interval) × IsSpaced interval (b ∷ ts)
IsSpaced interval ts = Unit

abbrev pub IsAligned : Timeframe → List Datetime → Type 0
IsAligned tf [] = Unit
IsAligned tf (t ∷ ts) = (timeframe_bucket_start t tf ≡ t) × IsAligned tf ts

pub record IsGrid (tf : Timeframe) (ts : List Datetime) : Type 0 where
  pub nonempty : ts ≢ []
  pub aligned : IsAligned tf ts
  pub spaced : IsSpaced (timeframe_duration tf) ts

pub duration_pos : (tf : Timeframe) → 0 < timeframe_duration tf
duration_pos one_minute = omega arith
duration_pos _ = omega arith

pub alignment-ok :
    (tf : Timeframe) (ts : List Datetime)
    → IsAligned tf ts
    → validate_candle_alignment tf ts ≡ ok tt
unfolding validate_candle_alignment
alignment-ok tf [] h = refl
alignment-ok tf (t ∷ ts) h = ground (arith, alignment-ok tf ts h.1)

pub IsAligned-of_ok :
    (tf : Timeframe) (ts : List Datetime)
    → validate_candle_alignment tf ts ≡ ok tt
    → IsAligned tf ts
unfolding validate_candle_alignment
IsAligned-of_ok tf [] h = tt
IsAligned-of_ok tf (t ∷ ts) h = ground (arith, IsAligned-of_ok tf ts)

spacing-ok : (d : Timedelta) (ts : List Datetime) → IsSpaced d ts → validate_spacing d ts ≡ ok tt
unfolding validate_spacing
spacing-ok d [] h = refl
spacing-ok d (a ∷ []) h = refl
spacing-ok d (a ∷ b ∷ ts) h = ground (arith, spacing-ok d (b ∷ ts) h.1)

IsSpaced-of_ok :
    (d : Timedelta) (ts : List Datetime) → validate_spacing d ts ≡ ok tt → IsSpaced d ts
unfolding validate_spacing
IsSpaced-of_ok d [] h = tt
IsSpaced-of_ok d (a ∷ []) h = tt
IsSpaced-of_ok d (a ∷ b ∷ ts) h = ground (arith, IsSpaced-of_ok d (b ∷ ts))

-- In a spaced list every later instant is later: so no repetition and no descent.
not-mem_later :
    (d t a : ℕ) (ts : List Datetime)
    → 0 < d
    → t < a
    → IsSpaced d (a ∷ ts)
    → mem_time t (a ∷ ts) ≡ false
not-mem_later d t a [] p l h = ground arith
not-mem_later d t a (b ∷ ts) p l h = ground (arith, not-mem_later d t b ts p (omega arith) h.1)

pub no_duplicates-of_IsSpaced :
    (d : Timedelta) (ts : List Datetime) → 0 < d → IsSpaced d ts → has_duplicates ts ≡ false
unfolding has_duplicates
no_duplicates-of_IsSpaced d [] p h = refl
no_duplicates-of_IsSpaced d (a ∷ []) p h = refl
no_duplicates-of_IsSpaced d (a ∷ b ∷ ts) p h =
    ground (
      arith,
      not-mem_later d a b ts p (omega arith) h.1,
      no_duplicates-of_IsSpaced d (b ∷ ts) p h.1,
    )

pub in_order-of_IsSpaced :
    (d : Timedelta) (ts : List Datetime) → IsSpaced d ts → is_out_of_order ts ≡ false
unfolding is_out_of_order
in_order-of_IsSpaced d [] h = refl
in_order-of_IsSpaced d (a ∷ []) h = refl
in_order-of_IsSpaced d (a ∷ b ∷ ts) h = ground (arith, in_order-of_IsSpaced d (b ∷ ts) h.1)

pub validate_ordered-of_IsGrid :
    (ts : List Datetime) (tf : Timeframe) → IsGrid tf ts → validate_ordered ts tf none ≡ ok tt
unfolding validate_ordered
validate_ordered-of_IsGrid [] tf g = absurd (g.nonempty refl)
validate_ordered-of_IsGrid (t ∷ ts) tf g = ground (
  arith,
  no_duplicates-of_IsSpaced (timeframe_duration tf) (t ∷ ts) (duration_pos tf) g.spaced,
  alignment-ok tf (t ∷ ts) g.aligned,
  spacing-ok (timeframe_duration tf) (t ∷ ts) g.spaced,
)

pub IsGrid-of_ok :
    (ts : List Datetime) (tf : Timeframe) → validate_ordered ts tf none ≡ ok tt → IsGrid tf ts
unfolding validate_ordered
IsGrid-of_ok [] tf h = cc
IsGrid-of_ok (t ∷ ts) tf h = record {
  nonempty = λ e. cc;
  aligned = ground (arith, IsAligned-of_ok tf (t ∷ ts));
  spaced = ground (arith, IsSpaced-of_ok (timeframe_duration tf) (t ∷ ts));
}
