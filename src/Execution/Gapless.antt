-- ===== src/Execution/Gapless.antt =====
-- `observe` of backend/app/execution/gateway.py on candles that leave no gap, against an observation
-- that looks for none.
use ai_trading_platform.Prelude.{
  ℕ, ◌+◌, ◌%◌, ◌≤◌, ◌≡◌, refl, Bool, not, List, [], ◌∷◌, map, Result, ok, err, ◌>>=◌, ◌>>◌,
  raise_if, All, arith, Ensures, Ensures-ok, Ensures->>=, Ensures-map, Bool-cases, Option-cases,
  inl, inr,
}
use ai_trading_platform.Timeframe.{Datetime, one_minute}
use ai_trading_platform.Candle.{Candle}
use ai_trading_platform.Normalize.Defs.{validate_candle_order}
use ai_trading_platform.Normalize.Grid.{IsGrid, IsSpaced, IsAligned, IsGrid-of_ok}
use ai_trading_platform.Execution.Models.{
  ExecutionError, account_closed, InstrumentProfile, ExecutionEvent,
}
use ai_trading_platform.Execution.Ledger.{Ledger, find_order}
use ai_trading_platform.Execution.Paper.{PaperPolicy}
use ai_trading_platform.Execution.Observation.{
  ObservedMarket, check_market, hot_orders, open_orders, is_done, observe_orders, observe_candles,
  observe,
}
use ai_trading_platform.Execution.Books.{All-map}
use ai_trading_platform.Execution.Cursor.{IsAwaiting, whole_minute}
use ai_trading_platform.Execution.Kept.{At}
use ai_trading_platform.Execution.Showing.{
  show_order, show_orders, show_candles, Shown, observe_order-same, show_order-Shown,
}

bind_same {ℓ κ ι} :
    {E : Type ℓ} {A : Type κ} {B : Type ι} (m n : Result E A) (f g : A → Result E B)
    → m ≡ n
    → ((a : A) → n ≡ ok a → f a ≡ g a)
    → (m >>= f) ≡ (n >>= g)
bind_same m (ok a) f g same next = rw same (next a refl)
bind_same m (err e) f g same next = rw same refl

-- The orders of a list wait for a candle of the instant or of a later one.
abbrev pub AllAwait : Datetime → List ℕ → Ledger → Type 0
AllAwait t ks l = All (λ k. At (IsAwaiting t) k l.orders) ks

-- The orders of a list wait for the first candle or for a later one.
abbrev pub AllAwaitFirst : List Candle → List ℕ → Ledger → Type 0
AllAwaitFirst [] ks l = Unit
AllAwaitFirst (c ∷ cs) ks l = AllAwait c.timestamp ks l

AllAwait-open :
    (t : Datetime) (ks : List ℕ) (l : Ledger) → AllAwait t ks l → AllAwait t (open_orders ks l) l
unfolding open_orders
AllAwait-open t [] l all = tt
AllAwait-open t (k ∷ ks) l all = elim (Option-cases (find_order k l.orders)) [
  | inl missing ↦ rw (open_orders, missing) (AllAwait-open t ks l all.1)
  | inr (r, found) ↦ elim (Bool-cases (is_done r.order)) [
    | inl done ↦ rw (open_orders, found, done) (AllAwait-open t ks l all.1)
    | inr waits ↦ rw (open_orders, found, waits) (all.0, AllAwait-open t ks l all.1)
  ]
]

module _ (allocate : ℕ → ℕ → ℕ → ℕ) (content_hash : ExecutionEvent → ℕ) (policy : PaperPolicy)
    (event_id : ℕ → Candle → ℕ) (candle_hash : Candle → ℕ) (reason : ExecutionError → ℕ)
    (now : Datetime) (profile : InstrumentProfile) where
  abbrev Progress : Datetime → List ℕ → Ledger → Ledger → Type 0
  Progress t ks l m =
      AllAwait (t + 60000000) ks m
      × ((u k : ℕ) → u ≤ t + 60000000 → At (IsAwaiting u) k l.orders → At (IsAwaiting u) k m.orders)

  show_orders-Progress :
      (c : Candle) (ks : List ℕ) (l : Ledger)
      → c.timestamp % 60000000 ≡ 0
      → AllAwait c.timestamp ks l
      → Ensures
          (Progress c.timestamp ks l)
          (show_orders allocate content_hash policy event_id candle_hash reason now profile c ks l)
  unfolding show_orders
  show_orders-Progress c [] l whole all = (tt, λ u k le at_k. at_k)
  show_orders-Progress c (j ∷ ks) l whole all =
      let first =
        show_order allocate content_hash policy event_id candle_hash reason now profile c j l in
      Ensures->>= (Progress c.timestamp (j ∷ ks) l) first _ (λ next made.
        let shown : Shown allocate content_hash policy event_id candle_hash reason c.timestamp j l
            next =
          Ensures-ok _ first next
            (show_order-Shown allocate content_hash policy event_id candle_hash reason now profile c
              j l whole all.0)
            made in
        let rest = All-map _ _ ks (λ k. shown.1 c.timestamp k (omega arith)) all.1 in
        Ensures-map _ _
          (show_orders allocate content_hash policy event_id candle_hash reason now profile c ks
            next)
          (λ m progress. (
            (progress.1 (c.timestamp + 60000000) j (omega arith) shown.0, progress.0),
            λ u k le at_k. progress.1 u k le (shown.1 u k le at_k),
          ))
          (show_orders-Progress c ks next whole rest))

  observe_orders-same :
      (c : Candle) (ks : List ℕ) (l : Ledger)
      → c.timestamp % 60000000 ≡ 0
      → AllAwait c.timestamp ks l
      → observe_orders allocate content_hash policy event_id candle_hash reason now profile c ks l
        ≡ show_orders allocate content_hash policy event_id candle_hash reason now profile c ks l
  unfolding observe_orders show_orders
  observe_orders-same c [] l whole all = refl
  observe_orders-same c (j ∷ ks) l whole all =
      let first =
        show_order allocate content_hash policy event_id candle_hash reason now profile c j l in
      bind_same _ first _ _
        (observe_order-same allocate content_hash policy event_id candle_hash reason now profile c j
          l whole all.0)
        (λ next made.
          let shown : Shown allocate content_hash policy event_id candle_hash reason c.timestamp j l
              next =
            Ensures-ok _ first next
              (show_order-Shown allocate content_hash policy event_id candle_hash reason now profile
                c j l whole all.0)
              made in
          observe_orders-same c ks next whole
            (All-map _ _ ks (λ k. shown.1 c.timestamp k (omega arith)) all.1))

  next_first :
      (c : Candle) (cs : List Candle) (ks : List ℕ) (l : Ledger)
      → IsSpaced 60000000 (map (λ x. x.timestamp) (c ∷ cs))
      → AllAwait (c.timestamp + 60000000) ks l
      → AllAwaitFirst cs ks l
  next_first c [] ks l spaced all = tt
  next_first c (d ∷ cs) ks l spaced all = rw spaced.0 all

  rest-IsSpaced :
      (c : Candle) (cs : List Candle)
      → IsSpaced 60000000 (map (λ x. x.timestamp) (c ∷ cs))
      → IsSpaced 60000000 (map (λ x. x.timestamp) cs)
  rest-IsSpaced c [] spaced = tt
  rest-IsSpaced c (d ∷ cs) spaced = spaced.1

  observe_candles-same :
      (cs : List Candle) (ks : List ℕ) (l : Ledger)
      → IsAligned one_minute (map (λ x. x.timestamp) cs)
      → IsSpaced 60000000 (map (λ x. x.timestamp) cs)
      → AllAwaitFirst cs ks l
      → observe_candles allocate content_hash policy event_id candle_hash reason now profile cs ks l
        ≡ show_candles allocate content_hash policy event_id candle_hash reason now profile cs ks l
  unfolding observe_candles show_candles
  observe_candles-same [] ks l aligned spaced all = refl
  observe_candles-same (c ∷ cs) ks l aligned spaced all =
      let whole = whole_minute c.timestamp aligned.0 in
      let shown =
        show_orders allocate content_hash policy event_id candle_hash reason now profile c ks l in
      bind_same _ shown _ _ (observe_orders-same c ks l whole all) (λ next made.
        let progress : Progress c.timestamp ks l next =
          Ensures-ok _ shown next (show_orders-Progress c ks l whole all) made in
        observe_candles-same cs (open_orders ks next) next aligned.1 (rest-IsSpaced c cs spaced) (
          next_first c cs (open_orders ks next) next spaced
            (AllAwait-open (c.timestamp + 60000000) ks next progress.0)))

  market-IsGrid :
      (m : ObservedMarket)
      → check_market now m ≡ ok tt
      → IsGrid one_minute (map (λ x. x.timestamp) m.candles)
  unfolding check_market validate_candle_order
  market-IsGrid m checked =
      IsGrid-of_ok (map (λ x. x.timestamp) m.candles) one_minute (ground (arith, checked))

  -- The whole transaction with no test for gaps.
  unfoldable pub show : (active : Bool) → ObservedMarket → Ledger → Result ExecutionError Ledger
  show active m l = do
    check_market now m
    raise_if (not active) account_closed
    show_candles allocate content_hash policy event_id candle_hash reason now profile m.candles
        (hot_orders m.market_symbol l.orders) l

  -- If every open order of the symbol waits for the first candle or for a later one, the observation is
  -- `show`, which has no test for gaps: it skips the candles before the one that an order is due, the
  -- first whole minute after its acceptance or the minute after the last that it saw, and shows the
  -- order each candle from there until it is done. Acceptances are from 1970 on and before
  -- 2514-05-30T01:53:04Z, and a candle that an order saw opened at a whole minute after its acceptance.
  pub gapless_observation :
      (active : Bool) (m : ObservedMarket) (l : Ledger)
      → AllAwaitFirst m.candles (hot_orders m.market_symbol l.orders) l
      → observe allocate content_hash policy event_id candle_hash reason active now profile m l
        ≡ show active m l
  unfolding observe show
  gapless_observation active m l all =
      bind_same (check_market now m) (check_market now m) _ _ refl (λ u checked.
        let grid = market-IsGrid m (cc checked) in
        bind_same (raise_if (not active) account_closed) (raise_if (not active) account_closed) _ _
          refl
          (λ v open_account.
            observe_candles-same m.candles (hot_orders m.market_symbol l.orders) l grid.aligned
              grid.spaced all))
