-- ===== src/Execution/Showing.antt =====
-- `observe` of backend/app/execution/gateway.py without its test for gaps: one candle shown to one order.
use ai_trading_platform.Prelude.{
  ℕ, ◌+◌, ◌%◌, ◌≤◌, ◌<◌, ◌≡◌, ◌∙◌, ap, refl, true, Option, none, some, List, [], ◌∷◌, ltb, ◌==◌,
  Result, ok, err, ◌>>=◌, if◌then◌else◌, arith, Ensures, Ensures-ok, Ensures->>=, Bool-cases, inl,
  inr,
}
use mathlib.Core.Path.{subst}
use ai_trading_platform.Timeframe.{Datetime}
use ai_trading_platform.Candle.{Candle}
use ai_trading_platform.Execution.Models.{
  ExecutionError, order_not_found, InstrumentProfile, Order, ExecutionEvent,
}
use ai_trading_platform.Execution.Ledger.{OrderRow, Ledger, find_order, put_order}
use ai_trading_platform.Execution.Orders.{change_order, observed}
use ai_trading_platform.Execution.Rows.{find_order-id}
use ai_trading_platform.Execution.Paper.{PaperPolicy, propose_fill}
use ai_trading_platform.Execution.Observation.{open_orders, settle_fill, observe_order}
use ai_trading_platform.Execution.Cursor.{
  due, IsAwaiting, is_seen-due, next_observation-due, due_later, IsAwaiting-later,
  IsAwaiting-of_same, observed-IsAwaiting,
}
use ai_trading_platform.Execution.Kept.{
  At, put_order-At, put_order-makes, IsOfCursor, settle_fill-At,
}

module _ (allocate : ℕ → ℕ → ℕ → ℕ) (content_hash : ExecutionEvent → ℕ) (policy : PaperPolicy)
    (event_id : ℕ → Candle → ℕ) (candle_hash : Candle → ℕ) (reason : ExecutionError → ℕ) where
  unfoldable settle :
      InstrumentProfile → ℕ → Option ExecutionEvent → Ledger → Result ExecutionError Ledger
  settle profile k proposal l = elim proposal [
    | none ↦ ok l
    | some e ↦ settle_fill allocate content_hash policy event_id candle_hash reason profile k e l
  ]

  -- The candle is shown to the order of a row.
  unfoldable pub show_candle :
      Datetime → InstrumentProfile → Candle → ℕ → OrderRow → Ledger → Result ExecutionError Ledger
  unfolding settle
  show_candle now profile c k r l =
      propose_fill policy r.order c (event_id k c) l.account.account_source now
        (l.account.last_sequence + 1) (candle_hash c)
      >>= λ proposal. settle profile k proposal l >>= λ settled.
          change_order (λ o. ok (observed c.timestamp o)) k settled >>= λ result. ok result.1

  -- Each candle from the one that is due is shown, with no test that it is the next.
  unfoldable pub show_order :
      Datetime → InstrumentProfile → Candle → ℕ → Ledger → Result ExecutionError Ledger
  show_order now profile c k l = elim (find_order k l.orders) [
    | none ↦ err order_not_found
    | some r ↦ if ltb c.timestamp (due r.order) then ok l else show_candle now profile c k r l
  ]

  unfoldable pub show_orders :
      Datetime → InstrumentProfile → Candle → List ℕ → Ledger → Result ExecutionError Ledger
  show_orders now profile c [] l = ok l
  show_orders now profile c (k ∷ ks) l =
      show_order now profile c k l >>= λ next. show_orders now profile c ks next

  unfoldable pub show_candles :
      Datetime → InstrumentProfile → List Candle → List ℕ → Ledger → Result ExecutionError Ledger
  show_candles now profile [] ks l = ok l
  show_candles now profile (c ∷ cs) ks l = show_orders now profile c ks l >>= λ next.
      show_candles now profile cs (open_orders ks next) next

  settle-At :
      (C : Order → Type 0) (profile : InstrumentProfile) (j : ℕ) (proposal : Option ExecutionEvent)
      (k : ℕ) (l : Ledger)
      → IsOfCursor C
      → At C k l.orders
      → Ensures (λ m. At C k m.orders) (settle profile j proposal l)
  unfolding settle
  settle-At C profile j none k l only at_k = at_k
  settle-At C profile j (some e) k l only at_k =
      settle_fill-At allocate content_hash policy event_id candle_hash reason C profile j e k l only
        at_k

  -- The order shown a candle of `t` waits for the next; the others wait as they did.
  abbrev pub Shown : Datetime → ℕ → Ledger → Ledger → Type 0
  Shown t j l m =
      At (IsAwaiting (t + 60000000)) j m.orders
      × ((u k : ℕ) → u ≤ t + 60000000 → At (IsAwaiting u) k l.orders → At (IsAwaiting u) k m.orders)

  observed-Shown :
      (c : Candle) (j : ℕ) (r : OrderRow) (l settled : Ledger)
      → c.timestamp % 60000000 ≡ 0
      → IsAwaiting c.timestamp r.order
      → r.order.accepted_at < c.timestamp
      → At (λ o. o.accepted_at ≡ r.order.accepted_at) j settled.orders
      → ((u k : ℕ) → At (IsAwaiting u) k l.orders → At (IsAwaiting u) k settled.orders)
      → Ensures
          (Shown c.timestamp j l)
          (change_order (λ o. ok (observed c.timestamp o)) j settled >>= λ result. ok result.1)
  unfolding change_order
  observed-Shown c j r l settled whole awaits late pinned others =
      let s = pinned.row in
      let id : s.order.order_id ≡ j = find_order-id j s settled.orders pinned.found in
      let named : find_order s.order.order_id settled.orders ≡ some s =
        ap (λ i. find_order i settled.orders) id ∙ pinned.found in
      let now_awaits = λ (u : ℕ) (le : u ≤ c.timestamp + 60000000).
        observed-IsAwaiting c.timestamp u r.order s.order whole awaits late pinned.holds le in
      rw (change_order, pinned.found)
        (
          subst
              (λ i.
                At (IsAwaiting (c.timestamp + 60000000)) i
                  (put_order (observed c.timestamp s.order) settled.orders))
              id
              (put_order-makes _ (observed c.timestamp s.order) s settled.orders named
                (now_awaits (c.timestamp + 60000000) (omega arith))),
          λ u k le at_k.
              put_order-At (IsAwaiting u) (observed c.timestamp s.order) s settled.orders k named
                (λ h. now_awaits u le) (others u k at_k),
        )

  show_candle-Shown :
      (now : Datetime) (profile : InstrumentProfile) (c : Candle) (j : ℕ) (r : OrderRow)
      (l : Ledger)
      → c.timestamp % 60000000 ≡ 0
      → find_order j l.orders ≡ some r
      → IsAwaiting c.timestamp r.order
      → r.order.accepted_at < c.timestamp
      → Ensures (Shown c.timestamp j l) (show_candle now profile c j r l)
  unfolding show_candle
  show_candle-Shown now profile c j r l whole found awaits late =
      Ensures->>= (Shown c.timestamp j l) (propose_fill policy r.order c _ _ _ _ _) _
        (λ proposal made.
          Ensures->>= (Shown c.timestamp j l) (settle profile j proposal l) _ (λ settled done.
            observed-Shown c j r l settled whole awaits late
              (Ensures-ok _ (settle profile j proposal l) settled
                (settle-At (λ o. o.accepted_at ≡ r.order.accepted_at) profile j proposal j l
                  (λ o p same _ h. same ∙ h) (record { row = r; found = found; holds = refl }))
                done)
              (λ u k at_k.
                Ensures-ok _ (settle profile j proposal l) settled
                  (settle-At (IsAwaiting u) profile j proposal k l (IsAwaiting-of_same u) at_k)
                  done)))

  pub observe_order-same :
      (now : Datetime) (profile : InstrumentProfile) (c : Candle) (j : ℕ) (l : Ledger)
      → c.timestamp % 60000000 ≡ 0
      → At (IsAwaiting c.timestamp) j l.orders
      → observe_order allocate content_hash policy event_id candle_hash reason now profile c j l
        ≡ show_order now profile c j l
  unfolding observe_order show_order show_candle settle
  observe_order-same now profile c j l whole at_j =
      let o = at_j.row.order in
      let seen = is_seen-due c.timestamp o c whole at_j.holds in
      let next = next_observation-due c.timestamp o at_j.holds in
      elim (Bool-cases (ltb c.timestamp (due o))) [
        | inl early ↦ rw (observe_order, show_order, at_j.found, seen, early) refl
        | inr shown ↦
            let reached = at_j.holds.reached in
            let is_next : (c.timestamp == due o) ≡ true = ground (arith, reached, shown) in
            rw (observe_order, show_order, at_j.found, seen, shown, next, is_next) refl
      ]

  pub show_order-Shown :
      (now : Datetime) (profile : InstrumentProfile) (c : Candle) (j : ℕ) (l : Ledger)
      → c.timestamp % 60000000 ≡ 0
      → At (IsAwaiting c.timestamp) j l.orders
      → Ensures (Shown c.timestamp j l) (show_order now profile c j l)
  unfolding show_order
  show_order-Shown now profile c j l whole at_j =
      let o = at_j.row.order in
      let reached = at_j.holds.reached in
      let later = due_later c.timestamp o at_j.holds in
      elim (Bool-cases (ltb c.timestamp (due o))) [
        | inl early ↦
            rw (show_order, at_j.found, early)
              (
                record {
                  row = at_j.row;
                  found = at_j.found;
                  holds = IsAwaiting-later c.timestamp o whole at_j.holds (ground (arith, early));
                },
                λ u k le at_k. at_k,
              )
        | inr shown ↦
            rw (show_order, at_j.found, shown)
              (show_candle-Shown now profile c j at_j.row l whole at_j.found at_j.holds
                (ground (arith, reached, shown, later)))
      ]
