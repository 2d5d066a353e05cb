-- ===== src/Execution/Paper.antt =====
-- backend/app/execution/adapters/paper.py: the fills that the paper adapter proposes on a closed
-- candle of one minute, and the evidence that it demands of a fill.
use ai_trading_platform.Prelude.{
  ℕ, ◌+◌, ◌-◌, ◌*◌, Bool, ◌&&◌, Option, none, some, [], ◌∷◌, ltb, leb, ◌==◌, Result, ok, err, ◌>>=◌,
  is_some, if◌then◌else◌, length,
}
use ai_trading_platform.Timeframe.{Datetime, minute}
use ai_trading_platform.Candle.{Candle}
use ai_trading_platform.Execution.Models.{
  Side, buy, sell, market, limit, ExecutionError, invalid_policy_evidence, assertion_failed, Order,
  OrderIntent, OrderSubmission, acknowledged, ExecutionEvent, total_fee,
}
use ai_trading_platform.Execution.Ledger.{same_option}

-- The constants of the adapter, the fresh id and the digest of a candle. `fee_of` is the product with
-- `PAPER_FEE_RATE`, and `complete_fill` the text that marks the one fill of an order.
pub record PaperPolicy : Type 0 where
  pub paper_provider : ℕ
  pub paper_version : ℕ
  pub paper_policy : ℕ
  pub fee_of : ℕ → ℕ
  pub complete_fill : ℕ → ℕ

-- `submit_order`
unfoldable pub submit_receipt : Order → OrderSubmission
submit_receipt o = record {
  status = acknowledged;
  receipt_order_id = some o.order_id;
  reason = none;
}

-- `normalize_event`
unfoldable pub normalize_event : PaperPolicy → ExecutionEvent → Result ExecutionError ExecutionEvent
normalize_event policy e =
    if (e.provenance.provider == policy.paper_provider)
      && ((e.provenance.adapter_version == policy.paper_version)
          && (same_option e.provenance.execution_policy_version (some policy.paper_policy)
              && (is_some e.provenance.observation_hash
                  && ((length e.fees == 1)
                      && (total_fee e == policy.fee_of (e.price * e.quantity))))))
    then ok e
    else err invalid_policy_evidence

-- A limit order whose price the candle did not reach.
unfoldable pub is_missed : Side → ℕ → Candle → Bool
is_missed buy price c = ltb price c.low
is_missed sell price c = ltb c.high price

-- The price of a fill, if there is one.
unfoldable pub fill_price : OrderIntent → Candle → Result ExecutionError (Option ℕ)
fill_price i c = elim i.kind [
  | market ↦ ok (some c.close)
  | limit ↦ elim i.limit_price [
    | none ↦ err assertion_failed
    | some price ↦ ok (if is_missed i.intent_side price c then none else some price)
  ]
]

abbrev pub paper_event :
    PaperPolicy
    → Order
    → Candle
    → (price external_order_id : ℕ) → (event_id source : ℕ) → Datetime
    → (sequence candle_hash : ℕ) → ExecutionEvent
paper_event policy o c price external_order_id event_id source received_at sequence candle_hash =
    let quantity = o.intent.intent_quantity - o.filled_quantity in
    record {
      event_id = event_id;
      execution_source = source;
      trading_account_id = o.order_account;
      internal_order_id = o.order_id;
      event_external_order_id = external_order_id;
      external_fill_id = policy.complete_fill o.order_id;
      event_symbol = o.intent.intent_symbol;
      instrument_reference = o.order_instrument;
      side = o.intent.intent_side;
      price = price;
      quantity = quantity;
      fees = policy.fee_of (price * quantity) ∷ [];
      filled_at = c.timestamp + minute;
      received_at = received_at;
      provenance = record {
        provider = policy.paper_provider;
        adapter_version = policy.paper_version;
        sequence = sequence;
        execution_policy_version = some policy.paper_policy;
        observation_hash = some candle_hash;
      };
    }

-- `propose_fill`, with its assertions.
unfoldable pub propose_fill :
    PaperPolicy
    → Order
    → Candle
    → (event_id source : ℕ) → Datetime
    → (sequence candle_hash : ℕ) → Result ExecutionError (Option ExecutionEvent)
propose_fill policy o c event_id source received_at sequence candle_hash =
    if leb c.timestamp o.accepted_at
    then ok none
    else fill_price o.intent c >>= λ found. elim found [
      | none ↦ ok none
      | some price ↦
          if leb o.intent.intent_quantity o.filled_quantity
          then ok none
          else elim o.external_order_id [
            | none ↦ err assertion_failed
            | some external ↦ ok (
                some (
                  paper_event policy o c price external event_id source received_at sequence
                    candle_hash))
          ]
    ]
