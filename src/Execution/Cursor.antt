-- ===== src/Execution/Cursor.antt =====
-- The next candle of an order in `observe` of backend/app/execution/gateway.py, counted in minutes.
use ai_trading_platform.Prelude.{
  ◌+◌, ◌/◌, ◌*◌, ◌%◌, ◌≤◌, ◌<◌, ◌≡◌, ◌||◌, false, Option, none, some, ltb, leb, arith, refl,
}
use ai_trading_platform.Timeframe.{
  Datetime, minute, epoch, one_minute, timeframe_bucket_start, epoch_bucket,
}
use ai_trading_platform.Timeframe.Buckets.{float_limit, minute_start-exact}
use ai_trading_platform.Candle.{Candle}
use ai_trading_platform.Execution.Models.{Order}
use ai_trading_platform.Execution.Orders.{observed}
use ai_trading_platform.Execution.Observation.{is_seen, next_observation}

-- The first whole minute after an acceptance, or the minute after the last candle seen.
abbrev pub due_after : Datetime → Option Datetime → Datetime
due_after accepted none = accepted / 60000000 * 60000000 + 60000000
due_after accepted (some t) = t + 60000000

abbrev pub due : Order → Datetime
due o = due_after o.accepted_at o.last_observation_at

-- The last candle seen opened at a whole minute after the acceptance.
abbrev pub IsObserved : Datetime → Option Datetime → Type 0
IsObserved accepted none = Unit
IsObserved accepted (some t) = (accepted < t) × (t % 60000000 ≡ 0)

-- An order that waits for a candle of the instant or of a later one.
pub record IsAwaiting (t : Datetime) (o : Order) : Type 0 where
  pub since : epoch ≤ o.accepted_at
  pub before : o.accepted_at < float_limit
  pub cursor : IsObserved o.accepted_at o.last_observation_at
  pub reached : t ≤ due o

seen_before :
    (accepted : Datetime) (last : Option Datetime) (t : Datetime)
    → t % 60000000 ≡ 0
    → IsObserved accepted last
    → (leb t accepted || elim last [ none ↦ false | some u ↦ leb t u ])
      ≡ ltb t (due_after accepted last)
seen_before accepted none t whole h = ground arith
seen_before accepted (some u) t whole h = ground arith

-- A candle is seen exactly before the one that is due.
pub is_seen-due :
    (t : Datetime) (o : Order) (c : Candle)
    → c.timestamp % 60000000 ≡ 0
    → IsAwaiting t o
    → is_seen o c ≡ ltb c.timestamp (due o)
unfolding is_seen
is_seen-due t o c whole h =
    seen_before o.accepted_at o.last_observation_at c.timestamp whole h.cursor

next_after :
    (accepted : Datetime) (last : Option Datetime)
    → epoch ≤ accepted
    → accepted < float_limit
    → elim last [ none ↦ timeframe_bucket_start accepted one_minute + minute | some t ↦ t + minute ]
      ≡ due_after accepted last
next_after accepted none h b = rw (minute_start-exact accepted h b) refl
next_after accepted (some t) h b = refl

pub next_observation-due : (t : Datetime) (o : Order) → IsAwaiting t o → next_observation o ≡ due o
unfolding next_observation
next_observation-due t o h = next_after o.accepted_at o.last_observation_at h.since h.before

-- An instant that is the start of its minute is a whole number of minutes.
pub whole_minute : (t : Datetime) → timeframe_bucket_start t one_minute ≡ t → t % 60000000 ≡ 0
unfolding timeframe_bucket_start epoch_bucket
whole_minute t h = ground arith

due_after-later :
    (accepted : Datetime) (last : Option Datetime)
    → IsObserved accepted last
    → accepted < due_after accepted last
due_after-later accepted none h = omega arith
due_after-later accepted (some t) h = omega (arith, h.0)

pub due_later : (t : Datetime) (o : Order) → IsAwaiting t o → o.accepted_at < due o
due_later t o h = due_after-later o.accepted_at o.last_observation_at h.cursor

pub IsAwaiting-of_same :
    (t : Datetime) (o p : Order)
    → p.accepted_at ≡ o.accepted_at
    → p.last_observation_at ≡ o.last_observation_at
    → IsAwaiting t o
    → IsAwaiting t p
IsAwaiting-of_same t o p accepted last h = record {
  since = rw accepted h.since;
  before = rw accepted h.before;
  cursor = rw (accepted, last) h.cursor;
  reached = rw (accepted, last) h.reached;
}

-- An order that has seen a candle after its acceptance.
pub observed-IsAwaiting :
    (t u : Datetime) (o p : Order)
    → t % 60000000 ≡ 0
    → IsAwaiting t o
    → o.accepted_at < t
    → p.accepted_at ≡ o.accepted_at
    → u ≤ t + 60000000
    → IsAwaiting u (observed t p)
observed-IsAwaiting t u o p whole h late same le = record {
  since = rw same h.since;
  before = rw same h.before;
  cursor = (rw same late, whole);
  reached = le;
}

due_after-whole :
    (accepted : Datetime) (last : Option Datetime)
    → IsObserved accepted last
    → due_after accepted last % 60000000 ≡ 0
due_after-whole accepted none h = omega arith
due_after-whole accepted (some t) h = omega (arith, h.1)

-- An order whose due candle is after a whole minute waits for the minute after it.
pub IsAwaiting-later :
    (t : Datetime) (o : Order)
    → t % 60000000 ≡ 0
    → IsAwaiting t o
    → t < due o
    → IsAwaiting (t + 60000000) o
IsAwaiting-later t o whole h later =
    let multiple = due_after-whole o.accepted_at o.last_observation_at h.cursor in
    record {
      since = h.since;
      before = h.before;
      cursor = h.cursor;
      reached = omega (arith, multiple, whole, later);
    }
