-- ===== src/Execution/Promises.antt =====
-- What the ledger of an account promises, in every run from its creation.
use ai_trading_platform.Prelude.{ℕ, ◌≤◌, ◌≡◌, refl, false, ltb, pos, ◌+ℤ◌, arith, ok}
use ai_trading_platform.Timeframe.{Datetime}
use ai_trading_platform.Normalize.Sorting.{sorted-of_Ascending}
use ai_trading_platform.Execution.Models.{
  ExecutionEvent, OrderIntent, Account, paid_fees, realized_pnl,
}
use ai_trading_platform.Execution.Ledger.{Ledger}
use ai_trading_platform.Execution.Orders.{create_account}
use ai_trading_platform.Execution.Replay.{
  initial_account, received_by, sequence_of, filled_at_of, get_account,
}
use ai_trading_platform.Execution.Steps.{Reaches}
use ai_trading_platform.Execution.Clock.{Ascending-received_by}
use ai_trading_platform.Execution.Bindings.{Bound-refl}
use ai_trading_platform.Execution.History.{replay_fills-IsBound}
use ai_trading_platform.Execution.Snapshots.{run-IsSettled, run-IsLater}

module _ (allocate : ℕ → ℕ → ℕ → ℕ) (content_hash : ExecutionEvent → ℕ)
    (intent_hash : OrderIntent → ℕ) (account_id source balance : ℕ) (now : Datetime)
    (start : Ledger) (made : create_account account_id source balance now ≡ ok start) where
  -- In every ledger that a run from the creation of the account reaches, cash plus the fees of the
  -- trades is the initial balance plus the profit realized.
  pub books_balance :
      (l : Ledger)
      → Reaches allocate content_hash intent_hash start l
      → l.account.cash_balance +ℤ pos (paid_fees l.account.trades)
        ≡ pos l.account.initial_balance +ℤ realized_pnl l.account.trades
  books_balance l run =
      (run-IsSettled allocate content_hash intent_hash account_id source balance now start l made
        run).sound.book.balanced

  -- In every ledger that a run reaches, the account as of any time from its creation can be rebuilt,
  -- and its books balance too.
  pub get_account_total :
      (l : Ledger) (cutoff : Datetime)
      → Reaches allocate content_hash intent_hash start l
      → l.account.created_at ≤ cutoff
      → (a : Account) × (get_account allocate cutoff l ≡ ok a)
        × (a.cash_balance +ℤ pos (paid_fees a.trades)
            ≡ pos a.initial_balance +ℤ realized_pnl a.trades)
  unfolding get_account
  get_account_total l cutoff run since =
      let i =
        run-IsSettled allocate content_hash intent_hash account_id source balance now start l made
          run in
      let (a, replayed, book) = i.replayable cutoff in
      let by_sequence =
        sorted-of_Ascending sequence_of (received_by cutoff l.fills)
          (Ascending-received_by sequence_of cutoff l.fills i.history.sequences) in
      let by_time =
        sorted-of_Ascending filled_at_of (received_by cutoff l.fills)
          (Ascending-received_by filled_at_of cutoff l.fills i.history.times) in
      let visible : ltb cutoff l.account.created_at ≡ false = ground (arith, since) in
      (a, rw (get_account, visible, by_sequence, by_time) replayed, book.balanced)

  -- Let a run reach `l` and go on to `m`, and let the fills that `m` had received by the cutoff be
  -- those of `l`. The account that `m` rebuilds as of the cutoff is the one that `l` kept.
  pub get_account_as_of :
      (l m : Ledger) (cutoff : Datetime)
      → Reaches allocate content_hash intent_hash start l
      → Reaches allocate content_hash intent_hash l m
      → m.account.created_at ≤ cutoff
      → received_by cutoff m.fills ≡ l.fills
      → get_account allocate cutoff m ≡ ok l.account
  unfolding get_account
  get_account_as_of l m cutoff before after since known =
      let i =
        run-IsSettled allocate content_hash intent_hash account_id source balance now start l made
          before in
      let later =
        run-IsLater allocate content_hash intent_hash l l m after
          (record { bound = λ k. Bound-refl _; initial = refl; created = refl }) in
      let by_sequence = sorted-of_Ascending sequence_of l.fills i.history.sequences in
      let by_time = sorted-of_Ascending filled_at_of l.fills i.history.times in
      let visible : ltb cutoff m.account.created_at ≡ false = ground (arith, since) in
      rw (get_account, visible, known, by_sequence, by_time, later.initial)
        (replay_fills-IsBound allocate l.orders m.orders (initial_account l.account) l.account
          l.fills later.bound i.history.replays)
