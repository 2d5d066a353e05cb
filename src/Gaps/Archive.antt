-- ===== src/Gaps/Archive.antt =====
-- The list of active zones changes nothing: it is enough to update the zones that it refers to.
use ai_trading_platform.Prelude.{
  ℕ, suc, ◌+◌, ◌≡◌, ◌∙◌, ap, refl, true, false, ◌||◌, not, Option, none, some, List, [], ◌∷◌, ◌++◌,
  ltb, length, All, arith, Result, ok, if◌then◌else◌, ◌>>=◌, ◌>>◌, Bool-cases, inl, inr,
}
use ai_trading_platform.Timeframe.{Datetime, Timeframe, timeframe_duration}
use ai_trading_platform.Candle.{Candle}
use ai_trading_platform.Gaps.Schema.{FvgConfig, FvgError, GapZone, GapRejection, new_gap_zone}
use ai_trading_platform.Gaps.Zones.{ZoneState, is_terminal, update_zone, new_fvg, new_ifvg}
use ai_trading_platform.Gaps.Analysis.{
  AtrPoint, Cell, Scan, Formation, no_gap, rejected, formed, form, form_gap, formed_cells,
  formed_rejections, next_atr, rest_points, new_cell, update_cell, update_cells, scan_candle,
  scan_candles, start_scan, to_schema, public_zones, FvgAnalysisResult, cutoff_of, validate_inputs,
  analyze_fvg,
}

-- The replay without the list: every zone of the archive is updated by every candle.
record FullScan : Type 0 where
  archive : List ZoneState
  rejections : List GapRejection
  index : ℕ
  first : Option Candle
  middle : Option Candle
  points : Option (List AtrPoint)
  atr_at_open : Option ℕ

abbrev formed_zones : Formation → List ZoneState
formed_zones (formed z) = z ∷ []
formed_zones f = []

abbrev born_zones : Option ZoneState → List ZoneState
born_zones none = []
born_zones (some z) = z ∷ []

abbrev zones_of : List Cell → List ZoneState
zones_of [] = []
zones_of (c ∷ cs) = c.zone ∷ zones_of cs

module _ (unit : ℕ) (divide atr_share : ℕ → ℕ → ℕ) where
  unfoldable replay_zone :
      FvgConfig → Candle → ℕ → Datetime → ZoneState → ZoneState × Option ZoneState
  replay_zone config bar index confirmed_at z =
      if ltb bar.timestamp z.since
      then (z, none)
      else update_zone unit divide config bar index confirmed_at z

  unfoldable replay_zones :
      FvgConfig → Candle → ℕ → Datetime → List ZoneState → List ZoneState × List ZoneState
  replay_zones config bar index confirmed_at [] = ([], [])
  replay_zones config bar index confirmed_at (z ∷ zs) =
      let (w, born) = replay_zone config bar index confirmed_at z in
      let (ws, others) = replay_zones config bar index confirmed_at zs in
      (w ∷ ws, born_zones born ++ others)

  unfoldable replay_candle : FvgConfig → (duration : ℕ) → Candle → FullScan → FullScan
  replay_candle config duration bar s =
      let confirmed_at = bar.timestamp + duration in
      let formation =
        form atr_share config s.atr_at_open s.first s.middle bar s.index confirmed_at in
      let (updated, born) =
        replay_zones config bar s.index confirmed_at (s.archive ++ formed_zones formation) in
      record {
        archive = updated ++ born;
        rejections = s.rejections ++ formed_rejections formation bar confirmed_at;
        index = suc s.index;
        first = s.middle;
        middle = some bar;
        points = rest_points s.points;
        atr_at_open = next_atr s.points;
      }

  unfoldable replay_candles : FvgConfig → (duration : ℕ) → List Candle → FullScan → FullScan
  replay_candles config duration [] s = s
  replay_candles config duration (c ∷ cs) s =
      replay_candles config duration cs (replay_candle config duration c s)

  -- A zone is listed as long as it is not terminal.
  abbrev IsListed : Cell → Type 0
  IsListed c = c.listed ≡ not (is_terminal c.zone.state)

  abbrev full_of : Scan → FullScan
  full_of s = record {
    archive = zones_of s.cells;
    rejections = s.rejections;
    index = s.index;
    first = s.first;
    middle = s.middle;
    points = s.points;
    atr_at_open = s.atr_at_open;
  }

  zones_of-append : (cs ds : List Cell) → zones_of (cs ++ ds) ≡ zones_of cs ++ zones_of ds
  zones_of-append [] ds = refl
  zones_of-append (c ∷ cs) ds = ap (λ zs. c.zone ∷ zs) (zones_of-append cs ds)

  All-++ : (cs ds : List Cell) → All IsListed cs → All IsListed ds → All IsListed (cs ++ ds)
  All-++ [] ds a b = b
  All-++ (c ∷ cs) ds a b = (a.0, All-++ cs ds a.1 b)

  -- A zone that is born is active.
  update_zone-born :
      (config : FvgConfig) (bar : Candle) (index : ℕ) (confirmed_at : Datetime) (z : ZoneState)
      → All IsListed (new_cell (update_zone unit divide config bar index confirmed_at z).1)
  unfolding update_zone new_ifvg
  update_zone-born config bar index confirmed_at z = ground arith

  update_zone-terminal :
      (config : FvgConfig) (bar : Candle) (index : ℕ) (confirmed_at : Datetime) (z : ZoneState)
      → is_terminal z.state ≡ true
      → update_zone unit divide config bar index confirmed_at z ≡ (z, none)
  unfolding update_zone
  update_zone-terminal config bar index confirmed_at z ended = rw ended refl

  abbrev Matches : Cell × Option ZoneState → ZoneState × Option ZoneState → Type 0
  Matches d w =
      (d.0.zone ≡ w.0)
      × (zones_of (new_cell d.1) ≡ born_zones w.1)
      × IsListed d.0
      × All IsListed (new_cell d.1)

  zones_of-new_cell : (o : Option ZoneState) → zones_of (new_cell o) ≡ born_zones o
  zones_of-new_cell none = refl
  zones_of-new_cell (some z) = refl

  update_cell-replay :
      (config : FvgConfig) (bar : Candle) (index : ℕ) (confirmed_at : Datetime) (c : Cell)
      → IsListed c
      → Matches
          (update_cell unit divide atr_share config bar index confirmed_at c)
          (replay_zone config bar index confirmed_at c.zone)
  unfolding update_cell replay_zone
  update_cell-replay config bar index confirmed_at c i =
      elim (Bool-cases (ltb bar.timestamp c.zone.since)) [
        | inl early ↦
            let skipped : (not c.listed || ltb bar.timestamp c.zone.since) ≡ true =
              ground (arith, early) in
            rw (skipped, early) (refl, refl, ground (arith, i), tt)
        | inr late ↦ elim (Bool-cases (is_terminal c.zone.state)) [
          | inl ended ↦
              let skipped : (not c.listed || ltb bar.timestamp c.zone.since) ≡ true =
                ground (arith, late, i, ended) in
              rw (skipped, late, update_zone-terminal config bar index confirmed_at c.zone ended)
                (refl, refl, ground (arith, i), tt)
          | inr alive ↦
              let seen : (not c.listed || ltb bar.timestamp c.zone.since) ≡ false =
                ground (arith, late, i, alive) in
              rw (seen, late)
                (
                  refl,
                  zones_of-new_cell _,
                  refl,
                  update_zone-born config bar index confirmed_at c.zone,
                )
        ]
      ]

  abbrev MatchesAll : List Cell × List Cell → List ZoneState × List ZoneState → Type 0
  MatchesAll d w = (zones_of d.0 ≡ w.0) × (zones_of d.1 ≡ w.1) × All IsListed d.0 × All IsListed d.1

  update_cells-replay :
      (config : FvgConfig) (bar : Candle) (index : ℕ) (confirmed_at : Datetime) (cs : List Cell)
      → All IsListed cs
      → MatchesAll
          (update_cells unit divide atr_share config bar index confirmed_at cs)
          (replay_zones config bar index confirmed_at (zones_of cs))
  unfolding update_cells replay_zones
  update_cells-replay config bar index confirmed_at [] a = (refl, refl, tt, tt)
  update_cells-replay config bar index confirmed_at (c ∷ cs) a =
      let one = update_cell-replay config bar index confirmed_at c a.0 in
      let rest = update_cells-replay config bar index confirmed_at cs a.1 in
      (
        cc (one.0, rest.0),
        zones_of-append
              (new_cell (update_cell unit divide atr_share config bar index confirmed_at c).1)
              (update_cells unit divide atr_share config bar index confirmed_at cs).1
            ∙ cc (one.1, rest.1),
        (one.2, rest.2),
        All-++ _ _ one.3 rest.3,
      )

  formed_cells-zones : (f : Formation) → zones_of (formed_cells f) ≡ formed_zones f
  formed_cells-zones no_gap = refl
  formed_cells-zones (rejected code) = refl
  formed_cells-zones (formed z) = refl

  formed_cells-IsListed :
      (config : FvgConfig) (atr : Option ℕ) (first middle : Option Candle) (bar : Candle)
      (index : ℕ) (confirmed_at : Datetime)
      → All IsListed (formed_cells (form atr_share config atr first middle bar index confirmed_at))
  unfolding form form_gap new_fvg
  formed_cells-IsListed config atr none middle bar index confirmed_at = tt
  formed_cells-IsListed config atr (some first) none bar index confirmed_at = tt
  formed_cells-IsListed config atr (some first) (some middle) bar index confirmed_at = ground arith

  scan_candle-replay :
      (config : FvgConfig) (duration : ℕ) (bar : Candle) (s : Scan)
      → All IsListed s.cells
      → (full_of (scan_candle unit divide atr_share config duration bar s)
          ≡ replay_candle config duration bar (full_of s))
        × All IsListed (scan_candle unit divide atr_share config duration bar s).cells
  unfolding scan_candle replay_candle
  scan_candle-replay config duration bar s a =
      let confirmed_at = bar.timestamp + duration in
      let formation =
        form atr_share config s.atr_at_open s.first s.middle bar s.index confirmed_at in
      let cells = s.cells ++ formed_cells formation in
      let listed =
        All-++ s.cells (formed_cells formation) a
          (formed_cells-IsListed config s.atr_at_open s.first s.middle bar s.index confirmed_at) in
      let all = update_cells-replay config bar s.index confirmed_at cells listed in
      let zones : zones_of cells ≡ zones_of s.cells ++ formed_zones formation =
        zones_of-append s.cells (formed_cells formation)
        ∙ ap (λ zs. zones_of s.cells ++ zs) (formed_cells-zones formation) in
      let u = update_cells unit divide atr_share config bar s.index confirmed_at cells in
      let replayed = replay_zones config bar s.index confirmed_at in
      let archive : zones_of (u.0 ++ u.1)
          ≡ (replayed (zones_of s.cells ++ formed_zones formation)).0
            ++ (replayed (zones_of s.cells ++ formed_zones formation)).1 =
        zones_of-append u.0 u.1
        ∙ cc (all.0, all.1)
        ∙ ap (λ zs. (replayed zs).0 ++ (replayed zs).1) zones in
      (
        ap
            (λ zs. record {
              archive = zs;
              rejections = s.rejections ++ formed_rejections formation bar confirmed_at;
              index = suc s.index;
              first = s.middle;
              middle = some bar;
              points = rest_points s.points;
              atr_at_open = next_atr s.points;
            })
            archive,
        All-++ _ _ all.2 all.3,
      )

  scan_candles-replay :
      (config : FvgConfig) (duration : ℕ) (candles : List Candle) (s : Scan)
      → All IsListed s.cells
      → full_of (scan_candles unit divide atr_share config duration candles s)
        ≡ replay_candles config duration candles (full_of s)
  unfolding scan_candles replay_candles
  scan_candles-replay config duration [] s a = refl
  scan_candles-replay config duration (c ∷ cs) s a =
      let (same, listed) = scan_candle-replay config duration c s a in
      scan_candles-replay config duration cs _ listed ∙ ap (replay_candles config duration cs) same

  unfoldable archive_zones : List ZoneState → Result FvgError (List GapZone)
  archive_zones [] = ok []
  archive_zones (z ∷ zs) =
      new_gap_zone unit (to_schema z) >>= λ w. archive_zones zs >>= λ ws. ok (w ∷ ws)

  public_zones-archive : (cs : List Cell) → public_zones unit cs ≡ archive_zones (zones_of cs)
  unfolding public_zones archive_zones
  public_zones-archive [] = refl
  public_zones-archive (c ∷ cs) = rw (public_zones-archive cs) refl

  abbrev start_replay : Option (List AtrPoint) → FullScan
  start_replay points = record {
    archive = [];
    rejections = [];
    index = 0;
    first = none;
    middle = none;
    points = points;
    atr_at_open = none;
  }

  -- `analyze_fvg` with no list of active zones.
  pub analyze_archive :
      List Candle
      → Timeframe
      → FvgConfig
      → Option (List AtrPoint)
      → Result FvgError FvgAnalysisResult
  analyze_archive candles timeframe config atr_result =
      let duration = timeframe_duration timeframe in
      let scan = replay_candles config duration candles (start_replay atr_result) in
      validate_inputs candles timeframe config atr_result
      >> (archive_zones scan.archive >>= λ zones. ok (record {
        candle_count = length candles;
        data_cutoff_at = cutoff_of candles duration;
        zones = zones;
        gap_rejections = scan.rejections;
      }))

  -- The analysis, which updates the zones of the active list only, is the one that updates every zone of
  -- the archive by every candle, for any decimal arithmetic.
  pub fvg_active_list_suffices :
      (candles : List Candle) (timeframe : Timeframe) (config : FvgConfig)
      (atr_result : Option (List AtrPoint))
      → analyze_fvg unit divide atr_share candles timeframe config atr_result
        ≡ analyze_archive candles timeframe config atr_result
  unfolding analyze_fvg analyze_archive
  fvg_active_list_suffices candles timeframe config atr_result =
      let duration = timeframe_duration timeframe in
      let same = scan_candles-replay config duration candles (start_scan atr_result) tt in
      let scan =
        scan_candles unit divide atr_share config duration candles (start_scan atr_result) in
      rw (public_zones-archive scan.cells) (
        ap
          (λ full.
            validate_inputs candles timeframe config atr_result
            >> (archive_zones full.archive >>= λ zones. ok (record {
              candle_count = length candles;
              data_cutoff_at = cutoff_of candles duration;
              zones = zones;
              gap_rejections = full.rejections;
            })))
          same)
