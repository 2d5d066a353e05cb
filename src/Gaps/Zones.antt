-- ===== src/Gaps/Zones.antt =====
-- The state of a zone in backend/app/engines/smc/fvg.py, how it is made, and its update by a candle.
use ai_trading_platform.Prelude.{
  ℕ, ◌+◌, ◌-◌, ◌*◌, Bool, true, false, ◌&&◌, ◌||◌, not, Option, none, some, List, [], ◌∷◌, ◌++◌,
  ltb, leb, ◌==◌, max, if◌then◌else◌,
}
use ai_trading_platform.Timeframe.{Datetime}
use ai_trading_platform.Candle.{Candle}
use ai_trading_platform.Gaps.Schema.{
  ZoneType, fvg, ifvg, GapDirection, bullish, bearish, ZoneStatus, open_zone, partial_zone,
  filled_zone, invalidated_zone, GapState, active, partially_filled, filled, inverted, invalidated,
  expired, FillBasis, wick, close_price, GapEventType, fvg_created, fvg_retest, fvg_filled,
  fvg_inverted, fvg_expired, ifvg_created, ifvg_retest, ifvg_filled, ifvg_invalidated, ifvg_expired,
  ZoneId, fvg_id, ifvg_id, FvgConfig, GapEvent, is_ifvg,
}

-- `_ZoneState`
pub record ZoneState : Type 0 where
  pub id : ZoneId
  pub kind : ZoneType
  pub side : GapDirection
  pub low : ℕ
  pub high : ℕ
  pub since : Datetime
  pub sources : List Datetime
  pub created_bar_index : ℕ
  pub origin_id : Option ZoneId
  pub state : GapState
  pub fill : ℕ
  pub retests : ℕ
  pub updated_at : Datetime
  pub events : List GapEvent

-- `TERMINAL_STATES`
abbrev pub is_terminal : GapState → Bool
is_terminal active = false
is_terminal partially_filled = false
is_terminal filled = true
is_terminal inverted = true
is_terminal invalidated = true
is_terminal expired = true

-- `_public_status`
abbrev pub public_status : GapState → ZoneStatus
public_status active = open_zone
public_status partially_filled = partial_zone
public_status filled = filled_zone
public_status inverted = invalidated_zone
public_status invalidated = invalidated_zone
public_status expired = invalidated_zone

-- `_append_event`
unfoldable pub append_event : ZoneState → GapEventType → Candle → Datetime → GapState → ZoneState
append_event z event_type bar occurred_at to_state = record z {
  state = to_state;
  updated_at = occurred_at;
  events =
      z.events
      ++ record {
        event_type = event_type;
        event_zone = z.id;
        bar_timestamp = bar.timestamp;
        occurred_at = occurred_at;
        from_state = some z.state;
        to_state = to_state;
        event_fill = z.fill;
        event_retests = z.retests;
      }
        ∷ [];
}

abbrev pub created_event : GapEventType → ZoneId → Candle → Datetime → GapEvent
created_event event_type id bar confirmed_at = record {
  event_type = event_type;
  event_zone = id;
  bar_timestamp = bar.timestamp;
  occurred_at = confirmed_at;
  from_state = none;
  to_state = active;
  event_fill = 0;
  event_retests = 0;
}

-- `_new_fvg`
unfoldable pub new_fvg :
    GapDirection
    → (lower upper : ℕ) → (first middle bar : Candle) → (third_index : ℕ) → Datetime
    → ZoneState
new_fvg direction lower upper first middle bar third_index confirmed_at = record {
  id = fvg_id direction bar.timestamp;
  kind = fvg;
  side = direction;
  low = lower;
  high = upper;
  since = confirmed_at;
  sources = first.timestamp ∷ middle.timestamp ∷ bar.timestamp ∷ [];
  created_bar_index = third_index;
  origin_id = none;
  state = active;
  fill = 0;
  retests = 0;
  updated_at = confirmed_at;
  events = created_event fvg_created (fvg_id direction bar.timestamp) bar confirmed_at ∷ [];
}

abbrev pub opposite : GapDirection → GapDirection
opposite bullish = bearish
opposite bearish = bullish

-- `_new_ifvg`
unfoldable pub new_ifvg : ZoneState → Candle → ℕ → Datetime → ZoneState
new_ifvg z bar index confirmed_at =
    let direction = opposite z.side in
    let id = ifvg_id direction bar.timestamp z.id in
    record {
      id = id;
      kind = ifvg;
      side = direction;
      low = z.low;
      high = z.high;
      since = confirmed_at;
      sources = z.sources;
      created_bar_index = index;
      origin_id = some z.id;
      state = active;
      fill = 0;
      retests = 0;
      updated_at = confirmed_at;
      events = created_event ifvg_created id bar confirmed_at ∷ [];
    }

abbrev pub probe_of : FillBasis → (extreme close : ℕ) → ℕ
probe_of wick extreme close = extreme
probe_of close_price extreme close = close

-- `_invalidation_triggered`
unfoldable pub invalidation_triggered : ZoneState → Candle → ℕ → Bool
invalidation_triggered z bar buffer = elim z.side [
  | bullish ↦ ltb (bar.close + buffer) z.low
  | bearish ↦ ltb (z.high + buffer) bar.close
]

abbrev pub retest_of : ZoneType → GapEventType
retest_of fvg = fvg_retest
retest_of ifvg = ifvg_retest

abbrev pub filled_of : ZoneType → GapEventType
filled_of fvg = fvg_filled
filled_of ifvg = ifvg_filled

abbrev pub expired_of : ZoneType → GapEventType
expired_of fvg = fvg_expired
expired_of ifvg = ifvg_expired

-- The last test of `_update_zone`.
unfoldable pub expire_zone : FvgConfig → Candle → ℕ → Datetime → ZoneState → ZoneState
expire_zone config bar index confirmed_at z =
    if ltb config.max_age_bars (index - z.created_bar_index) || ltb config.max_retests z.retests
    then append_event z (expired_of z.kind) bar confirmed_at expired
    else z

-- The zone after the observed fill is added.
abbrev pub retested : ℕ → Datetime → ZoneState → ZoneState
retested observed confirmed_at z = record z {
  retests = z.retests + 1;
  fill = max z.fill observed;
  updated_at = confirmed_at;
}

unfoldable pub fill_zone : FvgConfig → ℕ → Candle → Datetime → ZoneState → ZoneState
fill_zone config observed bar confirmed_at z =
    let touched = retested observed confirmed_at z in
    if z.fill == 0
    then append_event touched (retest_of z.kind) bar confirmed_at partially_filled
    else touched

-- `divide part whole` is the rounded fraction of a library's decimals.
module _ (unit : ℕ) (divide : ℕ → ℕ → ℕ) where
  -- `_bar_fill_fraction`
  unfoldable pub bar_fill_fraction : ZoneState → Candle → FillBasis → ℕ
  bar_fill_fraction z bar basis = elim z.side [
    | bullish ↦
        let probe = probe_of basis bar.low bar.close in
        if leb z.high probe
        then 0
        else if leb probe z.low
        then unit
        else divide (z.high - probe) (z.high - z.low)
    | bearish ↦
        let probe = probe_of basis bar.high bar.close in
        if leb probe z.low
        then 0
        else if leb z.high probe
        then unit
        else divide (probe - z.low) (z.high - z.low)
  ]

  -- The part of `_update_zone` from the observed fill on.
  unfoldable pub observe_fill : FvgConfig → Candle → ℕ → Datetime → ZoneState → ZoneState
  observe_fill config bar index confirmed_at z =
      let observed = bar_fill_fraction z bar config.fill_basis in
      let touched = fill_zone config observed bar confirmed_at z in
      if ltb 0 observed
      then if leb config.full_fill_fraction touched.fill
        then append_event touched (filled_of z.kind) bar confirmed_at filled
        else expire_zone config bar index confirmed_at touched
      else expire_zone config bar index confirmed_at z

  -- `_update_zone`: the zone, and the inverse gap that it turns into.
  unfoldable pub update_zone :
      FvgConfig → Candle → ℕ → Datetime → ZoneState → ZoneState × Option ZoneState
  update_zone config bar index confirmed_at z =
      let crossed =
        invalidation_triggered z bar (config.tick_size * config.inversion_buffer_ticks) in
      let gone = append_event z fvg_inverted bar confirmed_at inverted in
      if is_terminal z.state
      then (z, none)
      else if is_ifvg z.kind && crossed
      then (append_event z ifvg_invalidated bar confirmed_at invalidated, none)
      else if not (is_ifvg z.kind) && (crossed && config.ifvg_enabled)
      then (gone, some (new_ifvg gone bar index confirmed_at))
      else (observe_fill config bar index confirmed_at z, none)
