-- ===== src/Gaps/Repaint.antt =====
-- An analysis of more candles keeps the zones of the one before.
use ai_trading_platform.Prelude.{
  ℕ, ◌≤◌, ◌≡◌, ◌∙◌, sym, ap, refl, true, Option, none, some, List, [], ◌∷◌, ◌++◌, length, arith, ok,
  >>=-returned,
}
use ai_trading_platform.Timeframe.{Timeframe, timeframe_duration}
use ai_trading_platform.Candle.{Candle}
use ai_trading_platform.Gaps.Schema.{FvgConfig, GapEvent, GapZone, new_gap_zone}
use ai_trading_platform.Gaps.Zones.{is_terminal}
use ai_trading_platform.Gaps.Analysis.{
  AtrPoint, Cell, Scan, scan_candle, scan_candles, start_scan, to_schema, public_zones,
  FvgAnalysisResult, validate_inputs, validate_ticks, validate_spacing, analyze_fvg,
}
use ai_trading_platform.Gaps.Growth.{Extends, scan_candles-Extends, scan_candles-append}

-- A zone of a result, and the same zone in a result on more candles.
abbrev pub GrowsTo : GapZone → GapZone → Type 0
GrowsTo z w =
    (w.zone_id ≡ z.zone_id)
    × (w.direction ≡ z.direction)
    × (w.lower ≡ z.lower)
    × (w.upper ≡ z.upper)
    × (w.confirmed_at ≡ z.confirmed_at)
    × ((later : List GapEvent) × (w.lifecycle ≡ z.lifecycle ++ later))
    × (is_terminal z.lifecycle_state ≡ true → w ≡ z)

abbrev pub ZonesGrow : List GapZone → List GapZone → Type 0
ZonesGrow [] ws = Unit
ZonesGrow (z ∷ zs) [] = ⊥
ZonesGrow (z ∷ zs) (w ∷ ws) = GrowsTo z w × ZonesGrow zs ws

abbrev pub extended : Option (List AtrPoint) → List AtrPoint → Option (List AtrPoint)
extended none qs = none
extended (some ps) qs = some (ps ++ qs)

abbrev public_of : List Cell → List GapZone
public_of [] = []
public_of (c ∷ cs) = to_schema c.zone ∷ public_of cs

new_gap_zone-same : (unit : ℕ) (z w : GapZone) → new_gap_zone unit z ≡ ok w → w ≡ z
unfolding new_gap_zone
new_gap_zone-same unit z w h = ground (arith, h)

public_zones-public_of :
    (unit : ℕ) (cs : List Cell) (zs : List GapZone)
    → public_zones unit cs ≡ ok zs
    → zs ≡ public_of cs
unfolding public_zones
public_zones-public_of unit [] zs h = cc
public_zones-public_of unit (c ∷ cs) zs h =
    let (z, made, rest) = >>=-returned (new_gap_zone unit (to_schema c.zone)) _ h in
    let (ws, others, built) = >>=-returned (public_zones unit cs) _ rest in
    let same = new_gap_zone-same unit (to_schema c.zone) z made in
    let all = public_zones-public_of unit cs ws others in
    let whole : z ∷ ws ≡ zs = cc in sym whole ∙ cc (same, all)

module _ (unit : ℕ) (divide atr_share : ℕ → ℕ → ℕ) where
  public_of-ZonesGrow :
      (cs ds : List Cell)
      → Extends unit divide atr_share cs ds
      → ZonesGrow (public_of cs) (public_of ds)
  public_of-ZonesGrow [] ds h = tt
  public_of-ZonesGrow (c ∷ cs) [] h = h
  public_of-ZonesGrow (c ∷ cs) (d ∷ ds) h =
      let later = h.0.0 in
      (
        (
          later.same.0,
          later.same.2,
          later.same.3,
          later.same.4,
          later.same.5,
          (later.later, later.grown),
          λ e. ap to_schema (h.0.1 e),
        ),
        public_of-ZonesGrow cs ds h.1,
      )

  -- The points after the last candle are not read.
  scan_candles-points :
      (config : FvgConfig) (duration : ℕ) (cs : List Candle) (ps qs : List AtrPoint) (s : Scan)
      → length cs ≤ length ps
      → (scan_candles unit divide atr_share config duration cs
          (record s { points = some (ps ++ qs) })).cells
        ≡ (scan_candles unit divide atr_share config duration cs
            (record s { points = some ps })).cells
  unfolding scan_candles scan_candle
  scan_candles-points config duration [] ps qs s le = refl
  scan_candles-points config duration (c ∷ cs) [] qs s le = absurd (omega arith)
  scan_candles-points config duration (c ∷ cs) (p ∷ ps) qs s le =
      scan_candles-points config duration cs ps qs
        (scan_candle unit divide atr_share config duration c (record s { points = some (p ∷ ps) }))
        (omega arith)

  scan_extended :
      (config : FvgConfig) (timeframe : Timeframe) (cs : List Candle) (atr : Option (List AtrPoint))
      (qs : List AtrPoint)
      → validate_inputs cs timeframe config atr ≡ ok tt
      → (scan_candles unit divide atr_share config
          (timeframe_duration timeframe)
          cs
          (start_scan (extended atr qs))).cells
        ≡ (scan_candles unit divide atr_share config
            (timeframe_duration timeframe)
            cs
            (start_scan atr)).cells
  unfolding validate_inputs
  scan_extended config timeframe cs none qs h = refl
  scan_extended config timeframe cs (some ps) qs h =
      let (u, ticks, rest) = >>=-returned (validate_ticks config.tick_size cs) _ h in
      let (v, spaced, last) =
        >>=-returned (validate_spacing (timeframe_duration timeframe) cs) _ rest in
      scan_candles-points config (timeframe_duration timeframe) cs ps qs (start_scan (some ps))
        (ground (arith, last))

  -- No repainting: where the analyses of some candles and of more candles after them both return, each
  -- zone of the first stands at its place in the second, with its bounds, its direction and its time of
  -- confirmation, and with its events at the front of the later ones; and a zone that has ended is the same.
  pub gap_zones_only_grow :
      (candles more : List Candle) (timeframe : Timeframe) (config : FvgConfig)
      (atr : Option (List AtrPoint)) (points : List AtrPoint) (r s : FvgAnalysisResult)
      → analyze_fvg unit divide atr_share candles timeframe config atr ≡ ok r
      → analyze_fvg unit divide atr_share (candles ++ more) timeframe config (extended atr points)
        ≡ ok s
      → ZonesGrow r.zones s.zones
  unfolding analyze_fvg
  gap_zones_only_grow candles more timeframe config atr points r s h k =
      let duration = timeframe_duration timeframe in
      let first = scan_candles unit divide atr_share config duration candles (start_scan atr) in
      let longer =
        scan_candles unit divide atr_share config duration candles
          (start_scan (extended atr points)) in
      let last =
        scan_candles unit divide atr_share config duration (candles ++ more)
          (start_scan (extended atr points)) in
      let (u, checked, rest) = >>=-returned (validate_inputs candles timeframe config atr) _ h in
      let (zs, made, built) = >>=-returned (public_zones unit first.cells) _ rest in
      let (v, checked_too, rest_too) =
        >>=-returned (validate_inputs (candles ++ more) timeframe config (extended atr points)) _
          k in
      let (ws, made_too, built_too) = >>=-returned (public_zones unit last.cells) _ rest_too in
      let same_cells : longer.cells ≡ first.cells =
        scan_extended config timeframe candles atr points checked in
      let joined : last ≡ scan_candles unit divide atr_share config duration more longer =
        scan_candles-append unit divide atr_share config duration candles more
          (start_scan (extended atr points)) in
      let grown : Extends unit divide atr_share first.cells last.cells =
        rw (joined, sym same_cells)
          (scan_candles-Extends unit divide atr_share config duration more longer) in
      let zones : r.zones ≡ public_of first.cells =
        cc (public_zones-public_of unit first.cells zs made) in
      let zones_too : s.zones ≡ public_of last.cells =
        cc (public_zones-public_of unit last.cells ws made_too) in
      rw (zones, zones_too) (public_of-ZonesGrow first.cells last.cells grown)
