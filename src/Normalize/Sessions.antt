-- ===== src/Normalize/Sessions.antt =====
-- What the validation accepts under a session calendar: the instants of the calendar, which may leave
-- gaps, in increasing order and on bucket starts.
use ai_trading_platform.Prelude.{
  ℕ, ◌<◌, ◌≡◌, ◌≢◌, true, false, Option, none, some, List, [], ◌∷◌, arith, refl, ok,
}
use ai_trading_platform.Timeframe.{Timeframe, Datetime}
use ai_trading_platform.Normalize.Defs.{
  mem_time, same_times, has_duplicates, is_out_of_order, validate_ordered,
}
use ai_trading_platform.Normalize.Grid.{IsAligned, IsGrid, alignment-ok, IsAligned-of_ok}

-- Each instant is after the one before it.
abbrev pub IsIncreasing : List Datetime → Type 0
IsIncreasing (a ∷ b ∷ ts) = (a < b) × IsIncreasing (b ∷ ts)
IsIncreasing ts = Unit

pub record IsSession (tf : Timeframe) (times ts : List Datetime) : Type 0 where
  pub occupied : ts ≢ []
  pub on_buckets : IsAligned tf ts
  pub increasing : IsIncreasing ts
  pub listed : ts ≡ times

-- A grid without a calendar, the calendar's instants with one.
abbrev pub IsAccepted : Timeframe → Option (List Datetime) → List Datetime → Type 0
IsAccepted tf none ts = IsGrid tf ts
IsAccepted tf (some times) ts = IsSession tf times ts

not-mem_increasing :
    (t a : ℕ) (ts : List Datetime) → t < a → IsIncreasing (a ∷ ts) → mem_time t (a ∷ ts) ≡ false
not-mem_increasing t a [] l h = ground arith
not-mem_increasing t a (b ∷ ts) l h = ground (arith, not-mem_increasing t b ts (omega arith) h.1)

no_duplicates-of_IsIncreasing : (ts : List Datetime) → IsIncreasing ts → has_duplicates ts ≡ false
unfolding has_duplicates
no_duplicates-of_IsIncreasing [] h = refl
no_duplicates-of_IsIncreasing (a ∷ []) h = refl
no_duplicates-of_IsIncreasing (a ∷ b ∷ ts) h =
    ground (arith, not-mem_increasing a b ts h.0 h.1, no_duplicates-of_IsIncreasing (b ∷ ts) h.1)

pub in_order-of_IsIncreasing : (ts : List Datetime) → IsIncreasing ts → is_out_of_order ts ≡ false
unfolding is_out_of_order
in_order-of_IsIncreasing [] h = refl
in_order-of_IsIncreasing (a ∷ []) h = refl
in_order-of_IsIncreasing (a ∷ b ∷ ts) h = ground (arith, in_order-of_IsIncreasing (b ∷ ts) h.1)

IsIncreasing-of_order :
    (ts : List Datetime) → is_out_of_order ts ≡ false → has_duplicates ts ≡ false → IsIncreasing ts
unfolding is_out_of_order has_duplicates
IsIncreasing-of_order [] o d = tt
IsIncreasing-of_order (a ∷ []) o d = tt
IsIncreasing-of_order (a ∷ b ∷ ts) o d = ground (arith, IsIncreasing-of_order (b ∷ ts))

same_times_refl : (ts : List Datetime) → same_times ts ts ≡ true
same_times_refl [] = refl
same_times_refl (t ∷ ts) = ground (arith, same_times_refl ts)

same_times_sound : (ts us : List Datetime) → same_times ts us ≡ true → ts ≡ us
same_times_sound [] [] h = refl
same_times_sound [] (u ∷ us) h = cc
same_times_sound (t ∷ ts) [] h = cc
same_times_sound (t ∷ ts) (u ∷ us) h = ground (arith, same_times_sound ts us)

pub validate_ordered-of_IsSession :
    (ts times : List Datetime) (tf : Timeframe)
    → IsSession tf times ts
    → validate_ordered ts tf (some times) ≡ ok tt
unfolding validate_ordered
validate_ordered-of_IsSession [] times tf s = absurd (s.occupied refl)
validate_ordered-of_IsSession (t ∷ ts) times tf s = rw⁻¹ s.listed (
    ground (
      arith,
      no_duplicates-of_IsIncreasing (t ∷ ts) s.increasing,
      alignment-ok tf (t ∷ ts) s.on_buckets,
      same_times_refl (t ∷ ts),
    ))

pub IsSession-of_ok :
    (ts times : List Datetime) (tf : Timeframe)
    → is_out_of_order ts ≡ false
    → validate_ordered ts tf (some times) ≡ ok tt
    → IsSession tf times ts
unfolding validate_ordered
IsSession-of_ok [] times tf o h = cc
IsSession-of_ok (t ∷ ts) times tf o h = record {
  occupied = λ e. cc;
  on_buckets = ground (arith, IsAligned-of_ok tf (t ∷ ts));
  increasing = ground (arith, IsIncreasing-of_order (t ∷ ts) o);
  listed = ground (arith, same_times_sound (t ∷ ts) times);
}
