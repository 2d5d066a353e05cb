-- ===== src/Execution/Tests.antt =====
-- An account that buys five units and sells two of them.
use ai_trading_platform.Prelude.{
  ℕ, ◌==◌, ◌+◌, ◌*◌, ◌/◌, ◌≡◌, refl, true, false, Option, none, some, [], ◌∷◌, Result, ok, err,
  if◌then◌else◌, pos, ◌+ℤ◌, ◌-ℤ◌, ◌≤◌, arith,
}
use ai_trading_platform.Timeframe.{
  Datetime, epoch, minute, timeframe_bucket_start, epoch_bucket, whole_seconds, float_margin,
}
use ai_trading_platform.Candle.{Candle}
use ai_trading_platform.Normalize.Defs.{
  validate_candle_order, is_out_of_order, validate_ordered, has_duplicates,
  validate_candle_alignment, validate_spacing,
}
use ai_trading_platform.Execution.Models.{
  Side, buy, sell, market, acknowledged, ExecutionError, changed_economic_fill, InstrumentProfile,
  validate_units, OrderIntent, valid_intent, Order, OrderSubmission, ExecutionEvent, validate_event,
  Account, reserved_collateral, paid_fees, realized_pnl,
}
use ai_trading_platform.Execution.Accounting.{
  apply_fill, check_fill, find_position, find_trade, replace_trade, put_position, add_step,
  reduce_step, open_position, fill_step, finish_fill,
}
use ai_trading_platform.Execution.Ledger.{
  OrderRow, Ledger, find_order, put_order, find_fill, has_fill_key, held_of, matches_order,
  check_intention, record_fill, economic_content_hash, admit_new, admit,
}
use ai_trading_platform.Execution.Orders.{
  create_account, find_command, new_order, submit_order, usable, received, change_order,
  save_submission,
}
use ai_trading_platform.Execution.Replay.{received_by, get_account}
use ai_trading_platform.Execution.Steps.{
  Event, admits, submits, answers, apply, Reaches, stay, event,
}
use ai_trading_platform.Execution.Paper.{PaperPolicy, normalize_event, fill_price, propose_fill}
use ai_trading_platform.Execution.Observation.{
  ObservedMarket, last_close_at, any_open, check_market, is_seen, next_observation, hot_orders,
  open_orders, settle_fill, observe_order, observe_orders, observe_candles, observe,
}
use ai_trading_platform.Execution.Filled.{filled_total, orders_filled_within}
use ai_trading_platform.Execution.Net.{exposure, net_of, position_is_net}
use ai_trading_platform.Execution.Once.{admit_again}
use ai_trading_platform.Execution.Cursor.{IsAwaiting}
use ai_trading_platform.Execution.Gapless.{AllAwaitFirst, show, gapless_observation}
use ai_trading_platform.Execution.Simulation.{proposals_agree}
use ai_trading_platform.Execution.Promises.{books_balance, get_account_total, get_account_as_of}

abbrev share : ℕ → ℕ → ℕ → ℕ
share basis quantity part = basis * part / quantity

abbrev digest : ExecutionEvent → ℕ
digest e = e.price * 1000 + e.quantity

abbrev intent_digest : OrderIntent → ℕ
intent_digest i = i.intent_quantity

abbrev profile : InstrumentProfile
profile = record {
  reference = 3;
  symbol = 7;
  price_tick = 1;
  quantity_step = 1;
  minimum_quantity = 1;
  is_precise = λ n. true;
}

abbrev intent : ℕ → Side → ℕ → OrderIntent
intent command side quantity = record {
  command_id = command;
  intent_symbol = 7;
  intent_side = side;
  kind = market;
  intent_quantity = quantity;
  limit_price = none;
  plan_reference = none;
}

abbrev acceptance : ℕ → Option OrderSubmission
acceptance k = some (record { status = acknowledged; receipt_order_id = some k; reason = none })

abbrev fill : (id order : ℕ) → Side → (price quantity : ℕ) → Datetime → ExecutionEvent
fill id order side price quantity t = record {
  event_id = id;
  execution_source = 2;
  trading_account_id = 1;
  internal_order_id = order;
  event_external_order_id = order;
  external_fill_id = id;
  event_symbol = 7;
  instrument_reference = 3;
  side = side;
  price = price;
  quantity = quantity;
  fees = 1 ∷ [];
  filled_at = t;
  received_at = t;
  provenance = record {
    provider = 0;
    adapter_version = 0;
    sequence = id;
    execution_policy_version = none;
    observation_hash = none;
  };
}

abbrev value_of : Result ExecutionError Ledger → Ledger → Ledger
value_of (ok l) default = l
value_of (err e) default = default

abbrev no_ledger : Ledger
no_ledger = record {
  account = record {
    account_id = 0;
    account_source = 0;
    initial_balance = 0;
    cash_balance = pos 0;
    created_at = 0;
    updated_at = none;
    last_sequence = 0;
    last_filled_at = none;
    positions = [];
    trades = [];
  };
  orders = [];
  fills = [];
}

abbrev run : Event → Ledger → Result ExecutionError Ledger
run = apply share digest intent_digest

abbrev created : Ledger
created = value_of (create_account 1 2 1000 epoch) no_ledger

abbrev buys : Event
buys = submits true 11 0 epoch (intent 1 buy 5) profile

abbrev bought : Event
bought = admits true true (fill 21 11 buy 100 5 (epoch + minute)) profile

abbrev sells : Event
sells = submits true 12 0 (epoch + minute) (intent 2 sell 2) profile

abbrev sold : Event
sold = admits true true (fill 22 12 sell 110 2 (epoch + 2 * minute)) profile

abbrev l1 : Ledger
l1 = value_of (run buys created) no_ledger

abbrev l2 : Ledger
l2 = value_of (run (answers (acceptance 11) 0 0 11) l1) no_ledger

abbrev l3 : Ledger
l3 = value_of (run bought l2) no_ledger

abbrev l4 : Ledger
l4 = value_of (run sells l3) no_ledger

abbrev l5 : Ledger
l5 = value_of (run (answers (acceptance 12) 0 0 12) l4) no_ledger

abbrev l6 : Ledger
l6 = value_of (run sold l5) no_ledger

created_account : create_account 1 2 1000 epoch ≡ ok created
unfolding create_account
created_account = refl

first_run : Reaches share digest intent_digest created l3
unfolding create_account apply admit admit_new submit_order valid_intent validate_units find_command
    held_of new_order find_order put_order save_submission change_order received usable
    validate_event find_fill matches_order check_intention apply_fill check_fill fill_step
    open_position find_position finish_fill put_position replace_trade has_fill_key record_fill
    reserved_collateral ◌+ℤ◌ ◌-ℤ◌
first_run = event buys refl (event (answers (acceptance 11) 0 0 11) refl (event bought refl stay))

-- Cash after the sale: the profit of 20 less two fees.
l6_cash : l6.account.cash_balance ≡ pos 1018
unfolding create_account apply admit admit_new submit_order valid_intent validate_units find_command
    held_of new_order find_order put_order save_submission change_order received usable
    validate_event find_fill matches_order check_intention apply_fill check_fill fill_step
    open_position find_position finish_fill put_position replace_trade has_fill_key record_fill
    reserved_collateral ◌+ℤ◌ ◌-ℤ◌ reduce_step add_step find_trade
l6_cash = refl

second_run : Reaches share digest intent_digest l3 l6
unfolding create_account apply admit admit_new submit_order valid_intent validate_units find_command
    held_of new_order find_order put_order save_submission change_order received usable
    validate_event find_fill matches_order check_intention apply_fill check_fill fill_step
    open_position find_position finish_fill put_position replace_trade has_fill_key record_fill
    reserved_collateral ◌+ℤ◌ ◌-ℤ◌ reduce_step add_step find_trade
second_run = event sells refl (event (answers (acceptance 12) 0 0 12) refl (event sold refl stay))

whole_run : Reaches share digest intent_digest created l6
unfolding create_account apply admit admit_new submit_order valid_intent validate_units find_command
    held_of new_order find_order put_order save_submission change_order received usable
    validate_event find_fill matches_order check_intention apply_fill check_fill fill_step
    open_position find_position finish_fill put_position replace_trade has_fill_key record_fill
    reserved_collateral ◌+ℤ◌ ◌-ℤ◌ reduce_step add_step find_trade
whole_run = event buys refl (
    event (answers (acceptance 11) 0 0 11) refl (
      event bought refl
        (event sells refl (event (answers (acceptance 12) 0 0 12) refl (event sold refl stay)))))

books_balance_example :
    l6.account.cash_balance +ℤ pos (paid_fees l6.account.trades)
    ≡ pos l6.account.initial_balance +ℤ realized_pnl l6.account.trades
books_balance_example =
    books_balance share digest intent_digest 1 2 1000 epoch created created_account l6 whole_run

since_creation : l6.account.created_at ≤ epoch + minute
unfolding create_account apply admit admit_new submit_order valid_intent validate_units find_command
    held_of new_order find_order put_order save_submission change_order received usable
    validate_event find_fill matches_order check_intention apply_fill check_fill fill_step
    open_position find_position finish_fill put_position replace_trade has_fill_key record_fill
    reserved_collateral ◌+ℤ◌ ◌-ℤ◌ reduce_step add_step find_trade
since_creation = omega arith

get_account_total_example :
    (a : Account) × (get_account share (epoch + minute) l6 ≡ ok a)
    × (a.cash_balance +ℤ pos (paid_fees a.trades) ≡ pos a.initial_balance +ℤ realized_pnl a.trades)
get_account_total_example =
    get_account_total share digest intent_digest 1 2 1000 epoch created created_account l6
      (epoch + minute) whole_run since_creation

known_then : received_by (epoch + minute) l6.fills ≡ l3.fills
unfolding received_by create_account apply admit admit_new submit_order valid_intent validate_units
    find_command held_of new_order find_order put_order save_submission change_order received usable
    validate_event find_fill matches_order check_intention apply_fill check_fill fill_step
    open_position find_position finish_fill put_position replace_trade has_fill_key record_fill
    reserved_collateral ◌+ℤ◌ ◌-ℤ◌ reduce_step add_step find_trade
known_then = refl

get_account_as_of_example : get_account share (epoch + minute) l6 ≡ ok l3.account
get_account_as_of_example =
    get_account_as_of share digest intent_digest 1 2 1000 epoch created created_account l3 l6
      (epoch + minute) first_run second_run since_creation known_then

abbrev first_fill : ExecutionEvent
first_fill = fill 21 11 buy 100 5 (epoch + minute)

-- Delivered again with another event id.
abbrev delivered_again : ExecutionEvent
delivered_again = record first_fill { event_id = 99; received_at = epoch + 3 * minute }

first_admitted : admit share digest true true first_fill profile l2 ≡ ok (first_fill, l3)
unfolding create_account apply admit admit_new submit_order valid_intent validate_units find_command
    held_of new_order find_order put_order save_submission change_order received usable
    validate_event find_fill matches_order check_intention apply_fill check_fill fill_step
    open_position find_position finish_fill put_position replace_trade has_fill_key record_fill
    reserved_collateral ◌+ℤ◌ ◌-ℤ◌ reduce_step add_step find_trade
first_admitted = refl

again_valid : validate_event delivered_again ≡ ok tt
unfolding validate_event
again_valid = refl

again_source : delivered_again.execution_source ≡ l6.account.account_source
unfolding create_account apply admit admit_new submit_order valid_intent validate_units find_command
    held_of new_order find_order put_order save_submission change_order received usable
    validate_event find_fill matches_order check_intention apply_fill check_fill fill_step
    open_position find_position finish_fill put_position replace_trade has_fill_key record_fill
    reserved_collateral ◌+ℤ◌ ◌-ℤ◌ reduce_step add_step find_trade
again_source = refl

again_account : delivered_again.trading_account_id ≡ l6.account.account_id
unfolding create_account apply admit admit_new submit_order valid_intent validate_units find_command
    held_of new_order find_order put_order save_submission change_order received usable
    validate_event find_fill matches_order check_intention apply_fill check_fill fill_step
    open_position find_position finish_fill put_position replace_trade has_fill_key record_fill
    reserved_collateral ◌+ℤ◌ ◌-ℤ◌ reduce_step add_step find_trade
again_account = refl

admit_again_example : admit share digest false false delivered_again profile l6 ≡ (
    if economic_content_hash digest first_fill == economic_content_hash digest delivered_again
    then ok (first_fill, l6)
    else err changed_economic_fill)
admit_again_example =
    admit_again share digest intent_digest true true first_fill first_fill profile l2 l3 l6
      first_admitted second_run false false delivered_again profile refl again_valid again_source
      again_account

abbrev bought_row : OrderRow
bought_row = elim (find_order 11 l6.orders) [
  | some r ↦ r
  | none ↦ record {
    order = new_order 0 0 0 (intent 0 buy 0) profile 0 none;
    frozen_profile = profile;
  }
]

bought_found : find_order 11 l6.orders ≡ some bought_row
unfolding create_account apply admit admit_new submit_order valid_intent validate_units find_command
    held_of new_order find_order put_order save_submission change_order received usable
    validate_event find_fill matches_order check_intention apply_fill check_fill fill_step
    open_position find_position finish_fill put_position replace_trade has_fill_key record_fill
    reserved_collateral ◌+ℤ◌ ◌-ℤ◌ reduce_step add_step find_trade
bought_found = refl

orders_filled_within_example :
    (bought_row.order.filled_quantity ≡ filled_total 11 l6.fills)
    × (bought_row.order.filled_quantity ≤ bought_row.order.intent.intent_quantity)
orders_filled_within_example =
    orders_filled_within share digest intent_digest 1 2 1000 epoch created l6 11 bought_row
      created_account whole_run bought_found

-- Five bought and two sold.
net_after : net_of 7 l6.fills ≡ pos 3
unfolding net_of create_account apply admit admit_new submit_order valid_intent validate_units
    find_command held_of new_order find_order put_order save_submission change_order received usable
    validate_event find_fill matches_order check_intention apply_fill check_fill fill_step
    open_position find_position finish_fill put_position replace_trade has_fill_key record_fill
    reserved_collateral ◌+ℤ◌ ◌-ℤ◌ reduce_step add_step find_trade
net_after = refl

position_is_net_example : exposure 7 l6.account.positions ≡ net_of 7 l6.fills
position_is_net_example =
    position_is_net share digest intent_digest 1 2 1000 epoch created l6 7 created_account whole_run

abbrev policy : PaperPolicy
policy = record {
  paper_provider = 1;
  paper_version = 1;
  paper_policy = 1;
  fee_of = λ amount. amount / 100;
  complete_fill = λ k. k;
}

abbrev candle : Candle
candle = record {
  timestamp = epoch + minute;
  open_price = 100;
  high = 110;
  low = 90;
  close = 100;
  volume = 1;
}

abbrev observed_market : ObservedMarket
observed_market = record {
  market_symbol = 7;
  is_one_minute = true;
  lag_seconds = 0;
  retrieved_at = epoch + 2 * minute;
  data_cutoff_at = epoch + 2 * minute;
  candles = candle ∷ [];
}

abbrev waiting : Order
waiting = elim (find_order 11 l2.orders) [
  | some r ↦ r.order
  | none ↦ new_order 0 0 0 (intent 0 buy 0) profile 0 none
]

abbrev proposed : ExecutionEvent
proposed = record first_fill {
  fees = 5 ∷ [];
  filled_at = epoch + 2 * minute;
  received_at = epoch + 2 * minute;
  provenance = record {
    provider = 1;
    adapter_version = 1;
    sequence = 1;
    execution_policy_version = some 1;
    observation_hash = some 4;
  };
  event_id = 31;
  external_fill_id = 11;
}

is_proposed : propose_fill policy waiting candle 31 2 (epoch + 2 * minute) 1 4 ≡ ok (some proposed)
unfolding propose_fill fill_price create_account apply admit admit_new submit_order valid_intent
    validate_units find_command held_of new_order find_order put_order save_submission change_order
    received usable validate_event find_fill matches_order check_intention apply_fill check_fill
    fill_step open_position find_position finish_fill put_position replace_trade has_fill_key
    record_fill reserved_collateral ◌+ℤ◌ ◌-ℤ◌ reduce_step add_step find_trade
is_proposed = refl

proposals_agree_example :
    (normalize_event policy proposed ≡ ok proposed)
    × (matches_order waiting proposed ≡ true)
    × (waiting.filled_quantity + proposed.quantity ≡ waiting.intent.intent_quantity)
    × (fill_price waiting.intent candle ≡ ok (some proposed.price))
proposals_agree_example =
    proposals_agree policy waiting candle 31 2 (epoch + 2 * minute) 1 4 proposed is_proposed

abbrev observe_now : Ledger → Result ExecutionError Ledger
observe_now =
    observe share digest policy (λ k c. 31) (λ c. 4) (λ e. 0) true (epoch + 2 * minute) profile
      observed_market

abbrev seen_ledger : Ledger
seen_ledger = value_of (observe_now l2) no_ledger

observation_returns : observe_now l2 ≡ ok seen_ledger
unfolding is_out_of_order validate_ordered has_duplicates validate_candle_alignment validate_spacing
    observe check_market last_close_at any_open validate_candle_order hot_orders observe_candles
    observe_orders observe_order is_seen next_observation settle_fill normalize_event
    timeframe_bucket_start epoch_bucket whole_seconds float_margin propose_fill fill_price
    open_orders create_account apply admit admit_new submit_order valid_intent validate_units
    find_command held_of new_order find_order put_order save_submission change_order received usable
    validate_event find_fill matches_order check_intention apply_fill check_fill fill_step
    open_position find_position finish_fill put_position replace_trade has_fill_key record_fill
    reserved_collateral ◌+ℤ◌ ◌-ℤ◌ reduce_step add_step find_trade
observation_returns = refl

waiting_row : find_order 11 l2.orders ≡ some (record { order = waiting; frozen_profile = profile })
unfolding create_account apply admit admit_new submit_order valid_intent validate_units find_command
    held_of new_order find_order put_order save_submission change_order received usable
    validate_event find_fill matches_order check_intention apply_fill check_fill fill_step
    open_position find_position finish_fill put_position replace_trade has_fill_key record_fill
    reserved_collateral ◌+ℤ◌ ◌-ℤ◌ reduce_step add_step find_trade
waiting_row = refl

waiting-IsAwaiting : IsAwaiting (epoch + minute) waiting
unfolding create_account apply admit admit_new submit_order valid_intent validate_units find_command
    held_of new_order find_order put_order save_submission change_order received usable
    validate_event find_fill matches_order check_intention apply_fill check_fill fill_step
    open_position find_position finish_fill put_position replace_trade has_fill_key record_fill
    reserved_collateral ◌+ℤ◌ ◌-ℤ◌ reduce_step add_step find_trade
waiting-IsAwaiting = record {
  since = omega arith;
  before = omega arith;
  cursor = tt;
  reached = omega arith;
}

only_waiting : hot_orders 7 l2.orders ≡ 11 ∷ []
unfolding hot_orders create_account apply admit admit_new submit_order valid_intent validate_units
    find_command held_of new_order find_order put_order save_submission change_order received usable
    validate_event find_fill matches_order check_intention apply_fill check_fill fill_step
    open_position find_position finish_fill put_position replace_trade has_fill_key record_fill
    reserved_collateral ◌+ℤ◌ ◌-ℤ◌ reduce_step add_step find_trade
only_waiting = refl

first_awaited : AllAwaitFirst observed_market.candles (hot_orders 7 l2.orders) l2
first_awaited =
    rw only_waiting (record { row = _; found = waiting_row; holds = waiting-IsAwaiting }, tt)

gapless_observation_example :
    observe_now l2
    ≡ show share digest policy
        (λ k c. 31)
        (λ c. 4)
        (λ e. 0)
        (epoch + 2 * minute)
        profile
        true
        observed_market
        l2
gapless_observation_example =
    gapless_observation share digest policy (λ k c. 31) (λ c. 4) (λ e. 0) (epoch + 2 * minute)
      profile true observed_market l2 first_awaited
