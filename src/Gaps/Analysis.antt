-- ===== src/Gaps/Analysis.antt =====
-- `analyze_fvg` of backend/app/engines/smc/fvg.py. `atr_share ratio atr` is the product of a library's
-- decimals.
use ai_trading_platform.Prelude.{
  ℕ, suc, ◌+◌, ◌*◌, ◌%◌, Bool, true, ◌&&◌, ◌||◌, not, Option, none, some, List, [], ◌∷◌, ◌++◌, ltb,
  leb, ◌==◌, max, length, Result, ok, err, raise_if, if◌then◌else◌, ◌>>=◌, ◌>>◌,
}
use ai_trading_platform.Timeframe.{Datetime, Timeframe, timeframe_duration}
use ai_trading_platform.Candle.{Candle}
use ai_trading_platform.Gaps.Schema.{
  bullish, bearish, RejectionCode, atr_unavailable, impossible_dual_formation, FvgError,
  not_aligned, unordered_candles, timeframe_gap, atr_length, atr_timestamps, FvgConfig,
  GapRejection, GapZone, new_gap_zone,
}
use ai_trading_platform.Gaps.Zones.{ZoneState, is_terminal, public_status, new_fvg, update_zone}

-- A point of the average true range.
pub record AtrPoint : Type 0 where
  pub point_timestamp : Datetime
  pub atr : Option ℕ

abbrev pub is_aligned : ℕ → Candle → Bool
is_aligned tick c =
    (c.open_price % tick == 0)
    && ((c.high % tick == 0) && ((c.low % tick == 0) && (c.close % tick == 0)))

unfoldable pub validate_ticks : ℕ → List Candle → Result FvgError (Unit {0})
validate_ticks tick [] = ok tt
validate_ticks tick (c ∷ cs) =
    raise_if (not (is_aligned tick c)) not_aligned >> validate_ticks tick cs

unfoldable pub validate_spacing : ℕ → List Candle → Result FvgError (Unit {0})
validate_spacing duration (a ∷ b ∷ cs) =
    if leb b.timestamp a.timestamp
    then err unordered_candles
    else if b.timestamp == a.timestamp + duration
    then validate_spacing duration (b ∷ cs)
    else err timeframe_gap
validate_spacing duration cs = ok tt

unfoldable pub validate_points : List Candle → List AtrPoint → Result FvgError (Unit {0})
validate_points (c ∷ cs) (p ∷ ps) =
    raise_if (not (c.timestamp == p.point_timestamp)) atr_timestamps >> validate_points cs ps
validate_points cs ps = ok tt

unfoldable pub validate_inputs :
    List Candle → Timeframe → FvgConfig → Option (List AtrPoint) → Result FvgError (Unit {0})
validate_inputs candles timeframe config atr_result = do
  validate_ticks config.tick_size candles
  validate_spacing (timeframe_duration timeframe) candles
  elim atr_result [
    | none ↦ ok tt
    | some points ↦
        raise_if (not (length points == length candles)) atr_length
        >> validate_points candles points
  ]

-- A zone of the archive, and whether `active_zones` refers to it. Both lists grow at the end by the
-- same zones, so those that it refers to stand in the order of the archive.
pub record Cell : Type 0 where
  pub zone : ZoneState
  pub listed : Bool

-- The state of the loop, with the last two candles and the point of the last one.
pub record Scan : Type 0 where
  pub cells : List Cell
  pub rejections : List GapRejection
  pub index : ℕ
  pub first : Option Candle
  pub middle : Option Candle
  pub points : Option (List AtrPoint)
  pub atr_at_open : Option ℕ

pub data Formation : Type 0 where
  no_gap : Formation
  rejected : RejectionCode → Formation
  formed : ZoneState → Formation

unfoldable pub atr_missing : FvgConfig → Option ℕ → Bool
atr_missing config none = ltb 0 config.min_gap_atr_ratio
atr_missing config (some atr) = ltb 0 config.min_gap_atr_ratio && (atr == 0)

abbrev pub is_gap : (lower upper minimum : ℕ) → Bool
is_gap lower upper minimum = ltb lower upper && leb (lower + minimum) upper

-- The middle candle goes from `a` up to `b`, where that is asked for.
abbrev pub goes_with : FvgConfig → (a b : ℕ) → Bool
goes_with config a b = not config.require_middle_candle_direction || ltb a b

module _ (atr_share : ℕ → ℕ → ℕ) where
  abbrev pub minimum_gap : FvgConfig → Option ℕ → ℕ
  minimum_gap config atr =
      max (config.tick_size * config.min_gap_ticks)
        (elim atr [ none ↦ 0 | some a ↦ atr_share config.min_gap_atr_ratio a ])

  -- The zone that a third candle forms.
  unfoldable pub form_gap :
      FvgConfig
      → Option ℕ
      → (first middle bar : Candle) → (index : ℕ) → (confirmed_at : Datetime) → Formation
  form_gap config atr first middle bar index confirmed_at =
      let minimum = minimum_gap config atr in
      let up =
        is_gap first.high bar.low minimum && goes_with config middle.open_price middle.close in
      let down =
        is_gap bar.high first.low minimum && goes_with config middle.close middle.open_price in
      if atr_missing config atr
      then rejected atr_unavailable
      else if up && down
      then rejected impossible_dual_formation
      else if up
      then formed (new_fvg bullish first.high bar.low first middle bar index confirmed_at)
      else if down
      then formed (new_fvg bearish bar.high first.low first middle bar index confirmed_at)
      else no_gap

  -- `index >= 2`: there are two candles before.
  unfoldable pub form :
      FvgConfig
      → Option ℕ
      → (first middle : Option Candle) → Candle
      → (index : ℕ) → (confirmed_at : Datetime) → Formation
  form config atr (some first) (some middle) bar index confirmed_at =
      form_gap config atr first middle bar index confirmed_at
  form config atr first middle bar index confirmed_at = no_gap

abbrev pub formed_cells : Formation → List Cell
formed_cells (formed z) = record { zone = z; listed = true } ∷ []
formed_cells f = []

abbrev pub formed_rejections : Formation → Candle → Datetime → List GapRejection
formed_rejections (rejected code) bar confirmed_at =
    record { code = code; third_candle_timestamp = bar.timestamp; rejected_at = confirmed_at } ∷ []
formed_rejections f bar confirmed_at = []

-- `points[index - 1]`, the point of the candle before.
abbrev pub next_atr : Option (List AtrPoint) → Option ℕ
next_atr none = none
next_atr (some []) = none
next_atr (some (p ∷ ps)) = p.atr

abbrev pub rest_points : Option (List AtrPoint) → Option (List AtrPoint)
rest_points none = none
rest_points (some []) = some []
rest_points (some (p ∷ ps)) = some ps

abbrev pub new_cell : Option ZoneState → List Cell
new_cell none = []
new_cell (some z) = record { zone = z; listed = true } ∷ []

module _ (unit : ℕ) (divide atr_share : ℕ → ℕ → ℕ) where
  -- One turn of the loop over the active zones. A zone that is confirmed later is left as it is; one that
  -- ends is no longer listed.
  unfoldable pub update_cell : FvgConfig → Candle → ℕ → Datetime → Cell → Cell × Option ZoneState
  update_cell config bar index confirmed_at c =
      if not c.listed || ltb bar.timestamp c.zone.since
      then (record c { listed = c.listed && not (is_terminal c.zone.state) }, none)
      else let (z, born) = update_zone unit divide config bar index confirmed_at c.zone in
        (record { zone = z; listed = not (is_terminal z.state) }, born)

  -- The updated archive, and the inverse gaps that are new.
  unfoldable pub update_cells :
      FvgConfig → Candle → ℕ → Datetime → List Cell → List Cell × List Cell
  update_cells config bar index confirmed_at [] = ([], [])
  update_cells config bar index confirmed_at (c ∷ cs) =
      let (d, born) = update_cell config bar index confirmed_at c in
      let (ds, others) = update_cells config bar index confirmed_at cs in
      (d ∷ ds, new_cell born ++ others)

  unfoldable pub scan_candle : FvgConfig → (duration : ℕ) → Candle → Scan → Scan
  scan_candle config duration bar s =
      let confirmed_at = bar.timestamp + duration in
      let formation =
        form atr_share config s.atr_at_open s.first s.middle bar s.index confirmed_at in
      let (updated, born) =
        update_cells config bar s.index confirmed_at (s.cells ++ formed_cells formation) in
      record {
        cells = updated ++ born;
        rejections = s.rejections ++ formed_rejections formation bar confirmed_at;
        index = suc s.index;
        first = s.middle;
        middle = some bar;
        points = rest_points s.points;
        atr_at_open = next_atr s.points;
      }

  unfoldable pub scan_candles : FvgConfig → (duration : ℕ) → List Candle → Scan → Scan
  scan_candles config duration [] s = s
  scan_candles config duration (c ∷ cs) s =
      scan_candles config duration cs (scan_candle config duration c s)

abbrev pub start_scan : Option (List AtrPoint) → Scan
start_scan points = record {
  cells = [];
  rejections = [];
  index = 0;
  first = none;
  middle = none;
  points = points;
  atr_at_open = none;
}

-- `_to_schema`
abbrev pub to_schema : ZoneState → GapZone
to_schema z = record {
  zone_id = z.id;
  zone_type = z.kind;
  direction = z.side;
  lower = z.low;
  upper = z.high;
  created_at = z.since;
  confirmed_at = z.since;
  status = public_status z.state;
  lifecycle_state = z.state;
  source_candle_timestamps = z.sources;
  origin = z.origin_id;
  fill_fraction = z.fill;
  retest_count = z.retests;
  last_updated_at = z.updated_at;
  lifecycle = z.events;
}

unfoldable pub public_zones : (unit : ℕ) → List Cell → Result FvgError (List GapZone)
public_zones unit [] = ok []
public_zones unit (c ∷ cs) =
    new_gap_zone unit (to_schema c.zone) >>= λ z. public_zones unit cs >>= λ zs. ok (z ∷ zs)

-- `FVGAnalysisResult`, without the inputs that it repeats.
pub record FvgAnalysisResult : Type 0 where
  pub candle_count : ℕ
  pub data_cutoff_at : Option Datetime
  pub zones : List GapZone
  pub gap_rejections : List GapRejection

abbrev pub cutoff_of : List Candle → ℕ → Option Datetime
cutoff_of [] duration = none
cutoff_of (c ∷ []) duration = some (c.timestamp + duration)
cutoff_of (c ∷ d ∷ ds) duration = cutoff_of (d ∷ ds) duration

unfoldable pub analyze_fvg :
    (unit : ℕ) (divide atr_share : ℕ → ℕ → ℕ)
    → List Candle
    → Timeframe
    → FvgConfig
    → Option (List AtrPoint)
    → Result FvgError FvgAnalysisResult
analyze_fvg unit divide atr_share candles timeframe config atr_result =
    let duration = timeframe_duration timeframe in
    let scan = scan_candles unit divide atr_share config duration candles (start_scan atr_result) in
    validate_inputs candles timeframe config atr_result
    >> (public_zones unit scan.cells >>= λ zones. ok (record {
      candle_count = length candles;
      data_cutoff_at = cutoff_of candles duration;
      zones = zones;
      gap_rejections = scan.rejections;
    }))
