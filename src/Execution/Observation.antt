-- ===== src/Execution/Observation.antt =====
-- `observe` of backend/app/execution/gateway.py: closed candles of one minute are shown to the open
-- orders of a symbol, and the fills of the paper adapter are admitted. The marks of the valuation are
-- left out.
use ai_trading_platform.Prelude.{
  ℕ, ◌+◌, Bool, true, false, ◌&&◌, ◌||◌, not, Option, none, some, List, [], ◌∷◌, ltb, leb, ◌==◌,
  Result, ok, err, ◌>>=◌, ◌>>◌, raise_if, is_some, is_ok, if◌then◌else◌,
}
use ai_trading_platform.Timeframe.{Datetime, minute, one_minute, timeframe_bucket_start}
use ai_trading_platform.Candle.{Candle}
use ai_trading_platform.Normalize.Defs.{validate_candle_order}
use ai_trading_platform.Execution.Models.{
  ExecutionError, insufficient_balance, stale_reduction, stale_opening, over_close,
  missing_observation, stale_observation, partial_observation, unordered_observation,
  account_closed, order_not_found, SubmissionStatus, acknowledged, InstrumentProfile, Order,
  ExecutionEvent,
}
use ai_trading_platform.Execution.Ledger.{OrderRow, Ledger, find_order, admit}
use ai_trading_platform.Execution.Orders.{change_order, refused, observed}
use ai_trading_platform.Execution.Paper.{PaperPolicy, normalize_event, propose_fill}

-- Validated market data. `lag_seconds` and the rest of the provenance are those of the provider.
pub record ObservedMarket : Type 0 where
  pub market_symbol : ℕ
  pub is_one_minute : Bool
  pub lag_seconds : ℕ
  pub retrieved_at : Datetime
  pub data_cutoff_at : Datetime
  pub candles : List Candle

abbrev pub closes_at : Candle → Datetime
closes_at c = c.timestamp + minute

unfoldable pub last_close_at : List Candle → Option Datetime
last_close_at [] = none
last_close_at (c ∷ []) = some (closes_at c)
last_close_at (c ∷ d ∷ ds) = last_close_at (d ∷ ds)

unfoldable pub any_open : Datetime → List Candle → Bool
any_open now [] = false
any_open now (c ∷ cs) = ltb now (closes_at c) || any_open now cs

abbrev pub is_instant : Option Datetime → Datetime → Bool
is_instant none t = false
is_instant (some u) t = u == t

unfoldable pub check_market : Datetime → ObservedMarket → Result ExecutionError (Unit {0})
check_market now m = do
  raise_if
      (not (
        m.is_one_minute
        && ((m.lag_seconds == 0)
            && (leb m.retrieved_at now
                && ((m.data_cutoff_at == timeframe_bucket_start now one_minute)
                    && is_instant (last_close_at m.candles) m.data_cutoff_at)))))
      stale_observation
  raise_if (not (is_ok (validate_candle_order (λ c. c.timestamp) m.candles one_minute none)))
      unordered_observation
  raise_if (any_open now m.candles) partial_observation

-- The refusals of a fill that reject the order; the others abort the observation.
abbrev pub is_rejection : ExecutionError → Bool
is_rejection insufficient_balance = true
is_rejection stale_reduction = true
is_rejection stale_opening = true
is_rejection over_close = true
is_rejection e = false

abbrev pub is_acknowledged : SubmissionStatus → Bool
is_acknowledged acknowledged = true
is_acknowledged s = false

-- The order has seen the candle, or was accepted at it or later.
unfoldable pub is_seen : Order → Candle → Bool
is_seen o c =
    leb c.timestamp o.accepted_at
    || elim o.last_observation_at [ none ↦ false | some t ↦ leb c.timestamp t ]

-- The candle that an order is to see next.
unfoldable pub next_observation : Order → Datetime
next_observation o = elim o.last_observation_at [
  | none ↦ timeframe_bucket_start o.accepted_at one_minute + minute
  | some t ↦ t + minute
]

abbrev pub is_hot : ℕ → Order → Bool
is_hot symbol o =
    (o.intent.intent_symbol == symbol)
    && (is_acknowledged o.submission_status
        && (not (is_some o.cancelled_at) && not (o.filled_quantity == o.intent.intent_quantity)))

-- `_observation_orders`
unfoldable pub hot_orders : ℕ → List OrderRow → List ℕ
hot_orders symbol [] = []
hot_orders symbol (r ∷ rs) =
    if is_hot symbol r.order then r.order.order_id ∷ hot_orders symbol rs else hot_orders symbol rs

abbrev pub is_done : Order → Bool
is_done o =
    not (is_acknowledged o.submission_status) || (o.filled_quantity == o.intent.intent_quantity)

-- The orders that are not `terminal` after a candle.
unfoldable pub open_orders : List ℕ → Ledger → List ℕ
open_orders [] l = []
open_orders (k ∷ ks) l = elim (find_order k l.orders) [
  | none ↦ open_orders ks l
  | some r ↦ if is_done r.order then open_orders ks l else k ∷ open_orders ks l
]

-- `event_id` and `candle_hash` give the fresh id of a proposal and the digest of a candle; `reason`
-- the text of a refusal.
module _ (allocate : ℕ → ℕ → ℕ → ℕ) (content_hash : ExecutionEvent → ℕ) (policy : PaperPolicy)
    (event_id : ℕ → Candle → ℕ) (candle_hash : Candle → ℕ) (reason : ExecutionError → ℕ) where
  -- The proposal is admitted, or its refusal rejects the order.
  unfoldable pub settle_fill :
      InstrumentProfile → ℕ → ExecutionEvent → Ledger → Result ExecutionError Ledger
  settle_fill profile k proposal l = normalize_event policy proposal >>= λ e.
      elim (admit allocate content_hash true true e profile l) [
        | ok result ↦ ok result.1
        | err x ↦
            if is_rejection x
            then (change_order (λ o. ok (refused (reason x) o)) k l >>= λ result. ok result.1)
            else err x
      ]

  -- One candle is shown to one order.
  unfoldable pub observe_order :
      Datetime → InstrumentProfile → Candle → ℕ → Ledger → Result ExecutionError Ledger
  observe_order now profile c k l = elim (find_order k l.orders) [
    | none ↦ err order_not_found
    | some r ↦
        if is_seen r.order c
        then ok l
        else if not (c.timestamp == next_observation r.order)
        then err missing_observation
        else (propose_fill policy r.order c (event_id k c) l.account.account_source now
              (l.account.last_sequence + 1) (candle_hash c)
            >>= λ proposal.
                elim proposal [ none ↦ ok l | some e ↦ settle_fill profile k e l ] >>= λ settled.
                change_order (λ o. ok (observed c.timestamp o)) k settled >>= λ result. ok result.1)
  ]

  unfoldable pub observe_orders :
      Datetime → InstrumentProfile → Candle → List ℕ → Ledger → Result ExecutionError Ledger
  observe_orders now profile c [] l = ok l
  observe_orders now profile c (k ∷ ks) l =
      observe_order now profile c k l >>= λ next. observe_orders now profile c ks next

  unfoldable pub observe_candles :
      Datetime → InstrumentProfile → List Candle → List ℕ → Ledger → Result ExecutionError Ledger
  observe_candles now profile [] ks l = ok l
  observe_candles now profile (c ∷ cs) ks l = observe_orders now profile c ks l >>= λ next.
      observe_candles now profile cs (open_orders ks next) next

  -- The whole transaction; where it raises, the ledger is unchanged.
  unfoldable pub observe :
      (active : Bool)
      → Datetime
      → InstrumentProfile
      → ObservedMarket
      → Ledger
      → Result ExecutionError Ledger
  observe active now profile m l = do
    check_market now m
    raise_if (not active) account_closed
    observe_candles now profile m.candles (hot_orders m.market_symbol l.orders) l
