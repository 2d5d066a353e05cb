-- ===== src/Gaps/Growth.antt =====
-- Later candles change no zone but by adding events to those that have not ended.
use ai_trading_platform.Prelude.{
  ℕ, ◌+◌, ◌-◌, ◌*◌, ◌≡◌, ◌∙◌, ap, refl, true, ◌&&◌, ◌||◌, not, List, [], ◌∷◌, ◌++◌, ltb, leb, ◌==◌,
  arith, Bool-cases, inl, inr,
}
use ai_trading_platform.Timeframe.{Datetime}
use ai_trading_platform.Candle.{Candle}
use ai_trading_platform.Gaps.Schema.{
  GapState, filled, inverted, invalidated, expired, GapEventType, fvg_inverted, ifvg_invalidated,
  FvgConfig, GapEvent, is_ifvg,
}
use ai_trading_platform.Gaps.Zones.{
  ZoneState, is_terminal, append_event, invalidation_triggered, filled_of, expired_of, expire_zone,
  fill_zone, bar_fill_fraction, observe_fill, update_zone,
}
use ai_trading_platform.Gaps.Analysis.{
  Cell, Scan, form, formed_cells, update_cell, update_cells, scan_candle, scan_candles,
}

-- What is fixed of a zone when it is confirmed.
abbrev pub IsSameGap : ZoneState → ZoneState → Type 0
IsSameGap z w =
    (w.id ≡ z.id)
    × (w.kind ≡ z.kind)
    × (w.side ≡ z.side)
    × (w.low ≡ z.low)
    × (w.high ≡ z.high)
    × (w.since ≡ z.since)

-- The later state of a zone.
pub record IsLaterZone (z w : ZoneState) : Type 0 where
  pub same : IsSameGap z w
  pub later : List GapEvent
  pub grown : w.events ≡ z.events ++ later

append_nil : (es : List GapEvent) → es ≡ es ++ []
append_nil [] = refl
append_nil (e ∷ es) = ap (λ xs. e ∷ xs) (append_nil es)

append_assoc : (xs ys zs : List GapEvent) → (xs ++ ys) ++ zs ≡ xs ++ (ys ++ zs)
append_assoc [] ys zs = refl
append_assoc (x ∷ xs) ys zs = ap (λ es. x ∷ es) (append_assoc xs ys zs)

IsLaterZone-refl : (z : ZoneState) → IsLaterZone z z
IsLaterZone-refl z = record {
  same = (refl, refl, refl, refl, refl, refl);
  later = [];
  grown = append_nil z.events;
}

IsLaterZone-trans : (x y z : ZoneState) → IsLaterZone x y → IsLaterZone y z → IsLaterZone x z
IsLaterZone-trans x y z a b = record {
  same = (
    b.same.0 ∙ a.same.0,
    b.same.1 ∙ a.same.1,
    b.same.2 ∙ a.same.2,
    b.same.3 ∙ a.same.3,
    b.same.4 ∙ a.same.4,
    b.same.5 ∙ a.same.5,
  );
  later = a.later ++ b.later;
  grown = b.grown ∙ ap (λ es. es ++ b.later) a.grown ∙ append_assoc x.events a.later b.later;
}

append_event-IsLaterZone :
    (z : ZoneState) (event_type : GapEventType) (bar : Candle) (t : Datetime) (s : GapState)
    → IsLaterZone z (append_event z event_type bar t s)
unfolding append_event
append_event-IsLaterZone z event_type bar t s = record {
  same = (refl, refl, refl, refl, refl, refl);
  later = _;
  grown = refl;
}

expire_zone-IsLaterZone :
    (config : FvgConfig) (bar : Candle) (index : ℕ) (t : Datetime) (z : ZoneState)
    → IsLaterZone z (expire_zone config bar index t z)
unfolding expire_zone
expire_zone-IsLaterZone config bar index t z =
    elim (Bool-cases
      (ltb config.max_age_bars (index - z.created_bar_index) || ltb config.max_retests z.retests)) [
        | inl old ↦
            rw (expire_zone, old) (append_event-IsLaterZone z (expired_of z.kind) bar t expired)
        | inr young ↦ rw (expire_zone, young) (IsLaterZone-refl z)
      ]

fill_zone-IsLaterZone :
    (config : FvgConfig) (observed : ℕ) (bar : Candle) (t : Datetime) (z : ZoneState)
    → IsLaterZone z (fill_zone config observed bar t z)
unfolding fill_zone append_event
fill_zone-IsLaterZone config observed bar t z = elim (Bool-cases (z.fill == 0)) [
  | inl first ↦
      rw (fill_zone, first)
        (record { same = (refl, refl, refl, refl, refl, refl); later = _; grown = refl })
  | inr again ↦
      rw (fill_zone, again)
        (record {
          same = (refl, refl, refl, refl, refl, refl);
          later = [];
          grown = append_nil z.events;
        })
]

module _ (unit : ℕ) (divide atr_share : ℕ → ℕ → ℕ) where
  observe_fill-IsLaterZone :
      (config : FvgConfig) (bar : Candle) (index : ℕ) (t : Datetime) (z : ZoneState)
      → IsLaterZone z (observe_fill unit divide config bar index t z)
  unfolding observe_fill
  observe_fill-IsLaterZone config bar index t z =
      let observed = bar_fill_fraction unit divide z bar config.fill_basis in
      let touched = fill_zone config observed bar t z in
      let first = fill_zone-IsLaterZone config observed bar t z in
      elim (Bool-cases (ltb 0 observed)) [
        | inr none_seen ↦
            rw (observe_fill, none_seen) (expire_zone-IsLaterZone config bar index t z)
        | inl seen ↦ elim (Bool-cases (leb config.full_fill_fraction touched.fill)) [
          | inl full ↦
              rw (observe_fill, seen, full)
                (IsLaterZone-trans z touched _ first
                  (append_event-IsLaterZone touched (filled_of z.kind) bar t filled))
          | inr room ↦
              rw (observe_fill, seen, room)
                (IsLaterZone-trans z touched _ first
                  (expire_zone-IsLaterZone config bar index t touched))
        ]
      ]

  -- A later state of a zone, which is the same if the zone had ended.
  abbrev pub Grows : ZoneState → ZoneState → Type 0
  Grows z w = IsLaterZone z w × (is_terminal z.state ≡ true → w ≡ z)

  update_zone-Grows :
      (config : FvgConfig) (bar : Candle) (index : ℕ) (t : Datetime) (z : ZoneState)
      → Grows z (update_zone unit divide config bar index t z).0
  unfolding update_zone
  update_zone-Grows config bar index t z =
      let crossed =
        invalidation_triggered z bar (config.tick_size * config.inversion_buffer_ticks) in
      elim (Bool-cases (is_terminal z.state)) [
        | inl ended ↦ rw (update_zone, ended) (IsLaterZone-refl z, λ h. refl)
        | inr alive ↦ (
          elim (Bool-cases (is_ifvg z.kind && crossed)) [
            | inl gone ↦
                rw (update_zone, alive, gone)
                  (append_event-IsLaterZone z ifvg_invalidated bar t invalidated)
            | inr kept ↦
                elim (Bool-cases (not (is_ifvg z.kind) && (crossed && config.ifvg_enabled))) [
                  | inl turned ↦
                      rw (update_zone, alive, kept, turned)
                        (append_event-IsLaterZone z fvg_inverted bar t inverted)
                  | inr stays ↦
                      rw (update_zone, alive, kept, stays)
                        (observe_fill-IsLaterZone config bar index t z)
                ]
          ],
          λ h. absurd (ground (arith, h, alive)),
        )
      ]

  -- The zones of an archive, at the front of a later one.
  abbrev pub Extends : List Cell → List Cell → Type 0
  Extends [] ds = Unit
  Extends (c ∷ cs) [] = ⊥
  Extends (c ∷ cs) (d ∷ ds) = Grows c.zone d.zone × Extends cs ds

  Extends-trans : (bs cs ds : List Cell) → Extends bs cs → Extends cs ds → Extends bs ds
  Extends-trans [] cs ds h k = tt
  Extends-trans (b ∷ bs) [] ds h k = absurd h
  Extends-trans (b ∷ bs) (c ∷ cs) [] h k = absurd k
  Extends-trans (b ∷ bs) (c ∷ cs) (d ∷ ds) h k = (
    (
      IsLaterZone-trans b.zone c.zone d.zone h.0.0 k.0.0,
      λ e. let one = h.0.1 e in k.0.1 (ap (λ z. is_terminal z.state) one ∙ e) ∙ one,
    ),
    Extends-trans bs cs ds h.1 k.1,
  )

  Extends-refl : (cs : List Cell) → Extends cs cs
  Extends-refl [] = tt
  Extends-refl (c ∷ cs) = ((IsLaterZone-refl c.zone, λ h. refl), Extends-refl cs)

  Extends-append : (cs ds es : List Cell) → Extends cs ds → Extends cs (ds ++ es)
  Extends-append [] ds es h = tt
  Extends-append (c ∷ cs) [] es h = absurd h
  Extends-append (c ∷ cs) (d ∷ ds) es h = (h.0, Extends-append cs ds es h.1)

  update_cells-Extends :
      (config : FvgConfig) (bar : Candle) (index : ℕ) (t : Datetime) (cs : List Cell)
      → Extends cs (update_cells unit divide atr_share config bar index t cs).0
  unfolding update_cells update_cell
  update_cells-Extends config bar index t [] = tt
  update_cells-Extends config bar index t (c ∷ cs) =
      let rest = update_cells-Extends config bar index t cs in
      elim (Bool-cases (not c.listed || ltb bar.timestamp c.zone.since)) [
        | inl skipped ↦
            rw (update_cells, update_cell, skipped) ((IsLaterZone-refl c.zone, λ h. refl), rest)
        | inr seen ↦
            rw (update_cells, update_cell, seen) (update_zone-Grows config bar index t c.zone, rest)
      ]

  pub scan_candles-Extends :
      (config : FvgConfig) (duration : ℕ) (candles : List Candle) (s : Scan)
      → Extends s.cells (scan_candles unit divide atr_share config duration candles s).cells
  unfolding scan_candles scan_candle
  scan_candles-Extends config duration [] s = Extends-refl s.cells
  scan_candles-Extends config duration (c ∷ cs) s =
      let t = c.timestamp + duration in
      let new = formed_cells (form atr_share config s.atr_at_open s.first s.middle c s.index t) in
      let u = update_cells unit divide atr_share config c s.index t (s.cells ++ new) in
      Extends-trans s.cells (u.0 ++ u.1) _
        (Extends-trans s.cells (s.cells ++ new) (u.0 ++ u.1)
          (Extends-append s.cells s.cells new (Extends-refl s.cells))
          (Extends-append (s.cells ++ new) u.0 u.1
            (update_cells-Extends config c s.index t (s.cells ++ new))))
        (scan_candles-Extends config duration cs
          (scan_candle unit divide atr_share config duration c s))

  pub scan_candles-append :
      (config : FvgConfig) (duration : ℕ) (cs ds : List Candle) (s : Scan)
      → scan_candles unit divide atr_share config duration (cs ++ ds) s
        ≡ scan_candles unit divide atr_share config duration ds
            (scan_candles unit divide atr_share config duration cs s)
  unfolding scan_candles
  scan_candles-append config duration [] ds s = refl
  scan_candles-append config duration (c ∷ cs) ds s = scan_candles-append config duration cs ds _
