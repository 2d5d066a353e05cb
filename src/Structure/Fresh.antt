-- ===== src/Structure/Fresh.antt =====
-- A level of structure breaks once, and the events pass their validator.
use ai_trading_platform.Prelude.{
  ℕ, ◌+◌, ◌*◌, ◌<◌, ◌≡◌, refl, false, Option, none, some, List, [], ◌∷◌, arith, Option-cases, inl,
  inr,
}
use mathlib.Core.Path.{subst}
use ai_trading_platform.Timeframe.{Timeframe, Timedelta, timeframe_duration}
use ai_trading_platform.Candle.{Candle}
use ai_trading_platform.Structure.Schema.{
  MarketStructureConfig, SwingId, ConfirmedSwing, StructureBreakEvent,
}
use ai_trading_platform.Structure.Breaks.{
  BreakState, start_breaks, take_swing, consume, mem_id, pop_broken, open_candle, first_of,
  up_break, down_break, Output, event, nothing, rejection, up_value, down_value, compare_levels,
  step_candle, run_candles, events_of, detect_structure_breaks,
}

-- The ids that events break, the latest last.
abbrev pub AllFresh : List SwingId → List StructureBreakEvent → Type 0
AllFresh broken [] = Unit
AllFresh broken (e ∷ es) =
    (mem_id e.broken_structure_id broken ≡ false) × AllFresh (e.broken_structure_id ∷ broken) es

consume-broken :
    (n : ℕ) (opened : ℕ) (swings : List ConfirmedSwing) (st : BreakState)
    → (consume n opened swings st).broken_structure_ids ≡ st.broken_structure_ids
unfolding consume
consume-broken n opened [] st = refl
consume-broken n opened (swing ∷ swings) st =
    ground (arith, consume-broken n opened swings (take_swing n swing st))

open_candle-broken :
    (config : MarketStructureConfig) (c : Candle) (st : BreakState)
    → (open_candle config c st).broken_structure_ids ≡ st.broken_structure_ids
unfolding open_candle
open_candle-broken config c st =
    consume-broken config.trend_points_per_side c.timestamp st.pending st

pop_broken-fresh :
    (broken : List SwingId) (swings : List ConfirmedSwing) (s : ConfirmedSwing)
    → first_of (pop_broken broken swings) ≡ some s
    → mem_id s.swing_id broken ≡ false
unfolding pop_broken
pop_broken-fresh broken [] s h = cc
pop_broken-fresh broken (t ∷ ts) s h = ground (arith, pop_broken-fresh broken ts s)

up_break-some :
    (buffer value : ℕ) (o : Option ConfirmedSwing) (s : ConfirmedSwing)
    → up_break buffer value o ≡ some s
    → (o ≡ some s) × (s.price + buffer < value)
unfolding up_break
up_break-some buffer value none s h = cc
up_break-some buffer value (some t) s h = ground (arith, h)

down_break-some :
    (buffer value : ℕ) (o : Option ConfirmedSwing) (s : ConfirmedSwing)
    → down_break buffer value o ≡ some s
    → (o ≡ some s) × (value + buffer < s.price)
unfolding down_break
down_break-some buffer value none s h = cc
down_break-some buffer value (some t) s h = ground (arith, h)

-- What an output says of the broken ids before and after it.
abbrev pub IsFreshStep : List SwingId → Output → List SwingId → Type 0
IsFreshStep broken (event e) after =
    (mem_id e.broken_structure_id broken ≡ false) × (after ≡ e.broken_structure_id ∷ broken)
IsFreshStep broken o after = after ≡ broken

-- The levels that are first on the two sides are not broken yet.
abbrev pub IsUnbroken : BreakState → List ConfirmedSwing → Type 0
IsUnbroken st side =
    (s : ConfirmedSwing)
    → first_of side ≡ some s
    → mem_id s.swing_id st.broken_structure_ids ≡ false

fresh_output :
    (o : Output) (broken after : List SwingId) (os : List Output)
    → IsFreshStep broken o after
    → AllFresh after (events_of os)
    → AllFresh broken (events_of (o ∷ os))
unfolding events_of
fresh_output nothing broken after os h rest = subst (λ b. AllFresh b (events_of os)) h rest
fresh_output (rejection r) broken after os h rest = subst (λ b. AllFresh b (events_of os)) h rest
fresh_output (event e) broken after os h rest =
    (h.0, subst (λ b. AllFresh b (events_of os)) h.1 rest)

module _ (config : MarketStructureConfig) (duration : Timedelta) where
  open_candle-high :
      (c : Candle) (st : BreakState)
      → IsUnbroken (open_candle config c st) (open_candle config c st).high_unbroken
  unfolding open_candle
  open_candle-high c st s h = pop_broken-fresh _ _ s h

  open_candle-low :
      (c : Candle) (st : BreakState)
      → IsUnbroken (open_candle config c st) (open_candle config c st).low_unbroken
  unfolding open_candle
  open_candle-low c st s h = pop_broken-fresh _ _ s h

  compare_levels-fresh :
      (c : Candle) (st : BreakState)
      → IsUnbroken st st.high_unbroken
      → IsUnbroken st st.low_unbroken
      → IsFreshStep st.broken_structure_ids
          (compare_levels config duration c st).0
          (compare_levels config duration c st).1.broken_structure_ids
  unfolding compare_levels
  compare_levels-fresh c st h l =
      let basis = config.structure_break_basis in
      let buffer = config.tick_size * config.structure_break_buffer_ticks in
      elim (Option-cases (up_break buffer (up_value basis c) (first_of st.high_unbroken))) [
        | inl u ↦
            elim (Option-cases
              (down_break buffer (down_value basis c) (first_of st.low_unbroken))) [
                | inl d ↦ rw (compare_levels, u, d) refl
                | inr (s, d) ↦
                    rw (compare_levels, u, d) (l s (down_break-some buffer _ _ s d).0, refl)
              ]
        | inr (t, u) ↦
            elim (Option-cases
              (down_break buffer (down_value basis c) (first_of st.low_unbroken))) [
                | inl d ↦ rw (compare_levels, u, d) (h t (up_break-some buffer _ _ t u).0, refl)
                | inr (s, d) ↦ rw (compare_levels, u, d) refl
              ]
      ]

  step_candle-fresh :
      (c : Candle) (st : BreakState)
      → IsFreshStep st.broken_structure_ids
          (step_candle config duration c st).0
          (step_candle config duration c st).1.broken_structure_ids
  unfolding step_candle
  step_candle-fresh c st =
      let opened = open_candle config c st in
      subst
        (λ b.
          IsFreshStep b (compare_levels config duration c opened).0
            (compare_levels config duration c opened).1.broken_structure_ids)
        (open_candle-broken config c st)
        (compare_levels-fresh c opened (open_candle-high c st) (open_candle-low c st))

  run_candles-fresh :
      (cs : List Candle) (st : BreakState)
      → AllFresh st.broken_structure_ids (events_of (run_candles config duration cs st))
  unfolding run_candles events_of
  run_candles-fresh [] st = tt
  run_candles-fresh (c ∷ cs) st =
      fresh_output (step_candle config duration c st).0 st.broken_structure_ids
        (step_candle config duration c st).1.broken_structure_ids
        (run_candles config duration cs (step_candle config duration c st).1)
        (step_candle-fresh c st) (run_candles-fresh cs (step_candle config duration c st).1)

-- No level of structure is broken twice: the broken id of an event is of no earlier event.
pub structure_breaks_once :
    (candles : List Candle) (swings : List ConfirmedSwing) (timeframe : Timeframe)
    (config : MarketStructureConfig)
    → AllFresh [] (detect_structure_breaks candles swings timeframe config).0
unfolding detect_structure_breaks start_breaks
structure_breaks_once candles swings timeframe config =
    run_candles-fresh config (timeframe_duration timeframe) candles (start_breaks swings)
