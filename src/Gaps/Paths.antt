-- ===== src/Gaps/Paths.antt =====
-- Every zone has a lifecycle that follows the state machine, and passes the validator of its record.
use ai_trading_platform.Prelude.{
  ℕ, ◌-◌, ◌*◌, ◌≤◌, ◌<◌, ◌≡◌, refl, Bool, true, false, ◌&&◌, ◌||◌, not, Option, none, some, List,
  [], ◌∷◌, ◌++◌, ltb, leb, ◌==◌, All, arith, if◌then◌else◌, Bool-cases, inl, inr, is_some, ◌⊎◌,
}
use ai_trading_platform.Timeframe.{Datetime}
use ai_trading_platform.Candle.{Candle}
use ai_trading_platform.Gaps.Schema.{
  GapDirection, bullish, bearish, GapState, active, partially_filled, filled, inverted, invalidated,
  expired, GapEventType, fvg_inverted, ifvg_invalidated, FillBasis, FvgConfig, GapEvent, is_ifvg,
}
use ai_trading_platform.Gaps.Zones.{
  ZoneState, probe_of, is_terminal, append_event, new_ifvg, invalidation_triggered, filled_of,
  expired_of, expire_zone, fill_zone, bar_fill_fraction, observe_fill, update_zone,
}
use ai_trading_platform.Gaps.Analysis.{new_cell}

-- The transitions of the state machine.
abbrev pub is_allowed : Option GapState → GapState → Bool
is_allowed none active = true
is_allowed (some active) partially_filled = true
is_allowed (some active) inverted = true
is_allowed (some active) invalidated = true
is_allowed (some active) expired = true
is_allowed (some partially_filled) filled = true
is_allowed (some partially_filled) inverted = true
is_allowed (some partially_filled) invalidated = true
is_allowed (some partially_filled) expired = true
is_allowed s t = false

-- Events that lead from a state to another, each from where the one before ended.
abbrev pub IsPath : Option GapState → List GapEvent → Option GapState → Type 0
IsPath s [] t = s ≡ t
IsPath s (e ∷ es) t =
    (e.from_state ≡ s) × (is_allowed s e.to_state ≡ true) × IsPath (some e.to_state) es t

IsPath-append :
    (s : Option GapState) (es : List GapEvent) (t : GapState) (e : GapEvent)
    → IsPath s es (some t)
    → e.from_state ≡ some t
    → is_allowed (some t) e.to_state ≡ true
    → IsPath s (es ++ e ∷ []) (some e.to_state)
IsPath-append s [] t e p from step = (cc, rw p step, refl)
IsPath-append s (x ∷ xs) t e p from step =
    (p.0, p.1, IsPath-append (some x.to_state) xs t e p.2 from step)

abbrev pub is_active : GapState → Bool
is_active active = true
is_active s = false

-- The state, its events, and what the validator asks for.
pub record IsZone (unit : ℕ) (z : ZoneState) : Type 0 where
  pub path : IsPath none z.events (some z.state)
  pub positive : 0 < z.low
  pub ordered : z.low < z.high
  pub bounded : z.fill ≤ unit
  pub origin : is_some z.origin_id ≡ is_ifvg z.kind
  pub untouched : is_active z.state ≡ true → z.fill ≡ 0
  pub touched : is_active z.state ≡ false → is_terminal z.state ≡ false → (z.fill == 0) ≡ false

append_event-IsZone :
    (unit : ℕ) (z : ZoneState) (event_type : GapEventType) (bar : Candle) (t : Datetime)
    (s : GapState)
    → IsZone unit z
    → is_allowed (some z.state) s ≡ true
    → is_active s ≡ false
    → (is_terminal s ≡ false → (z.fill == 0) ≡ false)
    → IsZone unit (append_event z event_type bar t s)
unfolding append_event
append_event-IsZone unit z event_type bar t s i step passive left = record {
  path = IsPath-append none z.events z.state _ i.path refl step;
  positive = i.positive;
  ordered = i.ordered;
  bounded = i.bounded;
  origin = i.origin;
  untouched = λ h. absurd (ground (arith, h, passive));
  touched = λ h k. left k;
}

-- A zone that is not terminal may end.
may_end :
    (s : GapState)
    → is_terminal s ≡ false
    → (is_allowed (some s) inverted ≡ true)
      × (is_allowed (some s) invalidated ≡ true)
      × (is_allowed (some s) expired ≡ true)
may_end active h = (refl, refl, refl)
may_end partially_filled h = (refl, refl, refl)
may_end filled h = cc
may_end inverted h = cc
may_end invalidated h = cc
may_end expired h = cc

expire_zone-IsZone :
    (unit : ℕ) (config : FvgConfig) (bar : Candle) (index : ℕ) (t : Datetime) (z : ZoneState)
    → IsZone unit z
    → is_terminal z.state ≡ false
    → IsZone unit (expire_zone config bar index t z)
unfolding expire_zone
expire_zone-IsZone unit config bar index t z i alive =
    elim (Bool-cases
      (ltb config.max_age_bars (index - z.created_bar_index) || ltb config.max_retests z.retests)) [
        | inl old ↦
            rw (expire_zone, old)
              (append_event-IsZone unit z (expired_of z.kind) bar t expired i
                (may_end z.state alive).2 refl (λ h. cc))
        | inr young ↦ rw (expire_zone, young) i
      ]

side_cases : (d : GapDirection) → (d ≡ bullish) ⊎ (d ≡ bearish)
side_cases bullish = inl refl
side_cases bearish = inr refl

active_of : (s : GapState) → is_active s ≡ true → s ≡ active
active_of active h = refl
active_of partially_filled h = cc
active_of filled h = cc
active_of inverted h = cc
active_of invalidated h = cc
active_of expired h = cc

partial_of : (s : GapState) → is_active s ≡ false → is_terminal s ≡ false → s ≡ partially_filled
partial_of active h k = cc
partial_of partially_filled h k = refl
partial_of filled h k = cc
partial_of inverted h k = cc
partial_of invalidated h k = cc
partial_of expired h k = cc

clamp_bounded :
    (unit : ℕ) (below above : Bool) (share : ℕ)
    → (below ≡ false → above ≡ false → share ≤ unit)
    → (if below then 0 else if above then unit else share) ≤ unit
clamp_bounded unit true above share h = omega arith
clamp_bounded unit false true share h = omega arith
clamp_bounded unit false false share h = h refl refl

module _ (unit : ℕ) (divide : ℕ → ℕ → ℕ)
    (shares : (part whole : ℕ) → part ≤ whole → divide part whole ≤ unit) where
  bar_fill_fraction-bounded :
      (z : ZoneState) (bar : Candle) (basis : FillBasis)
      → bar_fill_fraction unit divide z bar basis ≤ unit
  unfolding bar_fill_fraction
  bar_fill_fraction-bounded z bar basis = elim (side_cases z.side) [
    | inl up ↦
        rw (bar_fill_fraction, up)
          (clamp_bounded unit _ _ _ (λ above below.
            shares (z.high - probe_of basis bar.low bar.close) (z.high - z.low)
              (ground (arith, above, below))))
    | inr down ↦
        rw (bar_fill_fraction, down)
          (clamp_bounded unit _ _ _ (λ below above.
            shares (probe_of basis bar.high bar.close - z.low) (z.high - z.low)
              (ground (arith, above, below))))
  ]

  -- A zone that a candle touches is partly filled, with a part that is not nothing.
  fill_zone-IsZone :
      (config : FvgConfig) (observed : ℕ) (bar : Candle) (t : Datetime) (z : ZoneState)
      → IsZone unit z
      → is_terminal z.state ≡ false
      → observed ≤ unit
      → ltb 0 observed ≡ true
      → IsZone unit (fill_zone config observed bar t z)
        × ((fill_zone config observed bar t z).state ≡ partially_filled)
  unfolding fill_zone append_event
  fill_zone-IsZone config observed bar t z i alive le positive =
      elim (Bool-cases (is_active z.state)) [
        | inl fresh ↦
            let empty : (z.fill == 0) ≡ true = ground (arith, i.untouched fresh) in
            let is_active_now = active_of z.state fresh in
            rw (fill_zone, empty)
              (
                record {
                  path = IsPath-append none z.events z.state _ i.path refl (rw is_active_now refl);
                  positive = i.positive;
                  ordered = i.ordered;
                  bounded = ground (arith, le, i.bounded);
                  origin = i.origin;
                  untouched = λ h. cc;
                  touched = λ h k. ground (arith, positive);
                },
                refl,
              )
        | inr used ↦
            let left = i.touched used alive in
            let is_partial = partial_of z.state used alive in
            rw (fill_zone, left)
              (
                record {
                  path = i.path;
                  positive = i.positive;
                  ordered = i.ordered;
                  bounded = ground (arith, le, i.bounded);
                  origin = i.origin;
                  untouched = λ h. absurd (ground (arith, h, used));
                  touched = λ h k. ground (arith, positive);
                },
                is_partial,
              )
      ]

  observe_fill-IsZone :
      (config : FvgConfig) (bar : Candle) (index : ℕ) (t : Datetime) (z : ZoneState)
      → IsZone unit z
      → is_terminal z.state ≡ false
      → IsZone unit (observe_fill unit divide config bar index t z)
  unfolding observe_fill
  observe_fill-IsZone config bar index t z i alive =
      let observed = bar_fill_fraction unit divide z bar config.fill_basis in
      elim (Bool-cases (ltb 0 observed)) [
        | inr none_seen ↦
            rw (observe_fill, none_seen) (expire_zone-IsZone unit config bar index t z i alive)
        | inl seen ↦
            let (touched, is_partial) =
              fill_zone-IsZone config observed bar t z i alive
                (bar_fill_fraction-bounded z bar config.fill_basis) seen in
            let still : is_terminal (fill_zone config observed bar t z).state ≡ false =
              rw is_partial refl in
            elim (Bool-cases
              (leb config.full_fill_fraction (fill_zone config observed bar t z).fill)) [
                | inl full ↦
                    rw (observe_fill, seen, full)
                      (append_event-IsZone unit (fill_zone config observed bar t z)
                        (filled_of z.kind) bar t filled touched (rw is_partial refl) refl (λ h. cc))
                | inr room ↦
                    rw (observe_fill, seen, room)
                      (expire_zone-IsZone unit config bar index t
                        (fill_zone config observed bar t z) touched still)
              ]
      ]

  abbrev pub AreZones : ZoneState × Option ZoneState → Type 0
  AreZones w = IsZone unit w.0 × All (λ c. IsZone unit c.zone) (new_cell w.1)

  new_ifvg-IsZone :
      (z : ZoneState) (bar : Candle) (index : ℕ) (t : Datetime)
      → IsZone unit z
      → IsZone unit (new_ifvg z bar index t)
  unfolding new_ifvg
  new_ifvg-IsZone z bar index t i = record {
    path = (refl, refl, refl);
    positive = i.positive;
    ordered = i.ordered;
    bounded = omega arith;
    origin = refl;
    untouched = λ h. refl;
    touched = λ h k. cc;
  }

  pub update_zone-IsZone :
      (config : FvgConfig) (bar : Candle) (index : ℕ) (t : Datetime) (z : ZoneState)
      → IsZone unit z
      → AreZones (update_zone unit divide config bar index t z)
  unfolding update_zone
  update_zone-IsZone config bar index t z i =
      let crossed =
        invalidation_triggered z bar (config.tick_size * config.inversion_buffer_ticks) in
      elim (Bool-cases (is_terminal z.state)) [
        | inl ended ↦ rw (update_zone, ended) (i, tt)
        | inr alive ↦ elim (Bool-cases (is_ifvg z.kind && crossed)) [
          | inl gone ↦
              rw (update_zone, alive, gone)
                (
                  append_event-IsZone unit z ifvg_invalidated bar t invalidated i
                      (may_end z.state alive).1 refl (λ h. cc),
                  tt,
                )
          | inr kept ↦
              elim (Bool-cases (not (is_ifvg z.kind) && (crossed && config.ifvg_enabled))) [
                | inl turned ↦
                    let gone =
                      append_event-IsZone unit z fvg_inverted bar t inverted i
                        (may_end z.state alive).0 refl (λ h. cc) in
                    rw (update_zone, alive, kept, turned)
                      (
                        gone,
                        (
                          new_ifvg-IsZone (append_event z fvg_inverted bar t inverted) bar index t
                              gone,
                          tt,
                        ),
                      )
                | inr stays ↦
                    rw (update_zone, alive, kept, stays)
                      (observe_fill-IsZone config bar index t z i alive, tt)
              ]
        ]
      ]
