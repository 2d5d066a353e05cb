-- ===== src/Execution/Simulation.antt =====
-- The proposals of backend/app/execution/adapters/paper.py, against the ledger that admits them.
use ai_trading_platform.Prelude.{
  ℕ, ◌+◌, ◌≡◌, true, false, Option, none, some, leb, ok, arith, Bool-cases, Option-cases, inl, inr,
  refl, Ensures, Ensures-ok, Ensures->>=,
}
use ai_trading_platform.Timeframe.{Datetime}
use ai_trading_platform.Candle.{Candle}
use ai_trading_platform.Execution.Models.{Side, buy, sell, Order, ExecutionEvent}
use ai_trading_platform.Execution.Ledger.{same_side, matches_order}
use ai_trading_platform.Execution.Paper.{
  PaperPolicy, normalize_event, fill_price, paper_event, propose_fill,
}

same_side_refl : (s : Side) → same_side s s ≡ true
same_side_refl buy = refl
same_side_refl sell = refl

abbrev Agrees : PaperPolicy → Order → Candle → Option ExecutionEvent → Type 0
Agrees policy o c none = Unit
Agrees policy o c (some e) =
    (normalize_event policy e ≡ ok e)
    × (matches_order o e ≡ true)
    × (o.filled_quantity + e.quantity ≡ o.intent.intent_quantity)
    × (fill_price o.intent c ≡ ok (some e.price))

paper_event-Agrees :
    (policy : PaperPolicy) (o : Order) (c : Candle) (price external event_id source : ℕ)
    (received_at : Datetime) (sequence candle_hash : ℕ)
    → leb c.timestamp o.accepted_at ≡ false
    → fill_price o.intent c ≡ ok (some price)
    → leb o.intent.intent_quantity o.filled_quantity ≡ false
    → o.external_order_id ≡ some external
    → Agrees policy o c (
        some
          (paper_event policy o c price external event_id source received_at sequence candle_hash))
unfolding normalize_event matches_order
paper_event-Agrees policy o c price external event_id source received_at sequence candle_hash late
      priced room known =
    (
      ground arith,
      rw known (ground (arith, late, room, same_side_refl o.intent.intent_side)),
      ground (arith, room),
      priced,
    )

propose_fill-Agrees :
    (policy : PaperPolicy) (o : Order) (c : Candle) (event_id source : ℕ) (received_at : Datetime)
    (sequence candle_hash : ℕ)
    → Ensures
        (Agrees policy o c)
        (propose_fill policy o c event_id source received_at sequence candle_hash)
unfolding propose_fill
propose_fill-Agrees policy o c event_id source received_at sequence candle_hash =
    elim (Bool-cases (leb c.timestamp o.accepted_at)) [
      | inl early ↦ rw early tt
      | inr late ↦ rw late (
          Ensures->>= (Agrees policy o c) (fill_price o.intent c) _ (λ found priced.
            elim (Option-cases found) [
              | inl missed ↦ rw missed tt
              | inr (price, here) ↦
                  elim (Bool-cases (leb o.intent.intent_quantity o.filled_quantity)) [
                    | inl whole ↦ rw (here, whole) tt
                    | inr room ↦ elim (Option-cases o.external_order_id) [
                      | inl unnamed ↦ simp (here, room, unnamed) tt
                      | inr (external, known) ↦
                          simp (here, room, known)
                            (paper_event-Agrees policy o c price external event_id source
                              received_at sequence candle_hash late (cc) room known)
                    ]
                  ]
            ]))
    ]

-- A fill that the adapter proposes passes the adapter's own test of evidence, agrees with its order as
-- the ledger demands, completes the order, and is at the price that the candle gives it.
pub proposals_agree :
    (policy : PaperPolicy) (o : Order) (c : Candle) (event_id source : ℕ) (received_at : Datetime)
    (sequence candle_hash : ℕ) (e : ExecutionEvent)
    → propose_fill policy o c event_id source received_at sequence candle_hash ≡ ok (some e)
    → (normalize_event policy e ≡ ok e)
      × (matches_order o e ≡ true)
      × (o.filled_quantity + e.quantity ≡ o.intent.intent_quantity)
      × (fill_price o.intent c ≡ ok (some e.price))
proposals_agree policy o c event_id source received_at sequence candle_hash e h =
    Ensures-ok (Agrees policy o c) _ (some e)
      (propose_fill-Agrees policy o c event_id source received_at sequence candle_hash) h
