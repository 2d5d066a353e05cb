-- ===== src/Execution/Snapshots.antt =====
-- `get_account` as of a time is total, and is the account that stood at that time.
use ai_trading_platform.Prelude.{
  ℕ, ◌≤◌, ◌≡◌, ◌∙◌, refl, ap, false, Option, some, List, [], ◌∷◌, ◌++◌, ltb, leb, All, arith,
  amounts, Bool-cases, inl, inr, ok, Ensures, Ensures-ok,
}
use ai_trading_platform.Timeframe.{Datetime}
use ai_trading_platform.Execution.Models.{
  ExecutionEvent, OrderIntent, Account, paid_fees, realized_pnl,
}
use ai_trading_platform.Execution.Accounting.{find_trade}
use ai_trading_platform.Execution.Filling.{IsBook}
use ai_trading_platform.Execution.Ledger.{Ledger, record_fill}
use ai_trading_platform.Execution.Orders.{create_account}
use ai_trading_platform.Execution.Replay.{initial_account, received_by, replay_fills}
use ai_trading_platform.Execution.Steps.{IsRevision, IsAdmission, Reaches, Reaches-keeps}
use ai_trading_platform.Execution.Bindings.{IsBound, Bound-trans, Bound-Revised}
use ai_trading_platform.Execution.Clock.{Within}
use ai_trading_platform.Execution.History.{
  IsHistory, revision-IsHistory, admission-IsHistory, admission-IsBound, admission-IsTimed,
  replay_fills-IsBound,
}
use ai_trading_platform.Execution.Trades.{IsSound, revision-IsSound, admission-IsSound}

module _ (allocate : ℕ → ℕ → ℕ → ℕ) where
  pub received_by-all :
      (cutoff : Datetime) (u : Option Datetime) (fs : List ExecutionEvent)
      → Within (some cutoff) 0
      → ((t : Datetime) → Within u t → t ≤ cutoff)
      → All (λ f. Within u f.received_at) fs
      → received_by cutoff fs ≡ fs
  unfolding received_by
  received_by-all cutoff u [] h le a = refl
  received_by-all cutoff u (f ∷ fs) h le a =
      ground (arith, le f.received_at a.0, received_by-all cutoff u fs h le a.1)

  -- A replay up to any time returns, with its books kept.
  abbrev pub IsReplayable : Ledger → Type 0
  IsReplayable l =
      (cutoff : Datetime)
      → (a : Account) × (replay_fills allocate l.orders (initial_account l.account)
            (received_by cutoff l.fills)
          ≡ ok a)
        × IsBook a

  received_by-append :
      (cutoff : Datetime) (e : ExecutionEvent) (fs : List ExecutionEvent)
      → leb e.received_at cutoff ≡ false
      → received_by cutoff (fs ++ e ∷ []) ≡ received_by cutoff fs
  unfolding received_by
  received_by-append cutoff e [] late = rw late refl
  received_by-append cutoff e (f ∷ fs) late = ground (arith, received_by-append cutoff e fs late)

  pub record IsSettled (l : Ledger) : Type 0 where
    pub history : IsHistory allocate l
    pub sound : IsSound l
    pub replayable : IsReplayable l

  revision-IsSettled : (l m : Ledger) → IsSettled l → IsRevision l m → IsSettled m
  revision-IsSettled l m i r = record {
    history = revision-IsHistory allocate l m i.history r;
    sound = revision-IsSound l m i.sound r;
    replayable = λ cutoff.
        let (a, replayed, book) = i.replayable cutoff in
        (
          a,
          rw (r.same_account, r.same_fills)
              (replay_fills-IsBound allocate l.orders m.orders (initial_account l.account) a
                (received_by cutoff l.fills) (λ k. Bound-Revised _ _ (r.revised k)) replayed),
          book,
        );
  }

  -- A fill that is received after the cutoff is not in the replay.
  replay_without :
      (l m : Ledger) (e : ExecutionEvent) (cutoff : Datetime) (a : Account)
      → IsAdmission allocate l e m
      → leb e.received_at cutoff ≡ false
      → replay_fills allocate l.orders (initial_account l.account) (received_by cutoff l.fills)
        ≡ ok a
      → replay_fills allocate m.orders (initial_account m.account) (received_by cutoff m.fills)
        ≡ ok a
  unfolding record_fill
  replay_without l m e cutoff a admitted late replayed =
      let fills : m.fills ≡ l.fills ++ e ∷ [] = rw admitted.recorded refl in
      rw
        (
          (admission-IsTimed allocate l m e admitted).initial,
          fills,
          received_by-append cutoff e l.fills late,
        )
        (replay_fills-IsBound allocate l.orders m.orders (initial_account l.account) a
          (received_by cutoff l.fills) (admission-IsBound allocate l m e admitted) replayed)

  admission-IsSettled :
      (l m : Ledger) (e : ExecutionEvent) → IsSettled l → IsAdmission allocate l e m → IsSettled m
  admission-IsSettled l m e i a =
      let after = admission-IsHistory allocate l m e i.history a in
      let kept = admission-IsSound allocate l m e i.sound a in
      let t = admission-IsTimed allocate l m e a in
      record {
        history = after;
        sound = kept;
        replayable = λ cutoff. elim (Bool-cases (leb e.received_at cutoff)) [
          | inl seen ↦
              let all =
                received_by-all cutoff m.account.updated_at m.fills (omega arith)
                  (rw t.updated (λ u le. ground (arith, seen, le))) after.seen in
              (m.account, rw all after.replays, kept.book)
          | inr late ↦
              let (b, replayed, book) = i.replayable cutoff in
              (b, replay_without l m e cutoff b a late replayed, book)
        ];
      }

  created-IsSettled :
      (account_id source balance : ℕ) (now : Datetime)
      → Ensures IsSettled (create_account account_id source balance now)
  unfolding create_account replay_fills paid_fees realized_pnl find_trade received_by
  created-IsSettled account_id source balance now = elim (Bool-cases (ltb 0 balance)) [
    | inr empty ↦ rw empty tt
    | inl positive ↦ rw positive (record {
      history = record {
        replays = refl;
        sequences = tt;
        sequenced = tt;
        times = tt;
        timed = tt;
        seen = tt;
        opened = omega arith;
      };
      sound = record {
        book = record { distinct = tt; kept = tt; balanced = omega amounts };
        named = λ k absent. refl;
      };
      replayable =
          λ cutoff. (_, refl, record { distinct = tt; kept = tt; balanced = omega amounts });
    })
  ]

  pub run-IsSettled :
      (content_hash : ExecutionEvent → ℕ) (intent_hash : OrderIntent → ℕ)
      (account_id source balance : ℕ) (now : Datetime) (l m : Ledger)
      → create_account account_id source balance now ≡ ok l
      → Reaches allocate content_hash intent_hash l m
      → IsSettled m
  run-IsSettled content_hash intent_hash account_id source balance now l m made run =
      Reaches-keeps allocate content_hash intent_hash IsSettled revision-IsSettled
        admission-IsSettled l m run
        (Ensures-ok IsSettled _ l (created-IsSettled account_id source balance now) made)

  -- A run binds the fills of its start as the start did, and keeps the account's beginning.
  pub record IsLater (l m : Ledger) : Type 0 where
    pub bound : IsBound l.orders m.orders
    pub initial : initial_account m.account ≡ initial_account l.account
    pub created : m.account.created_at ≡ l.account.created_at

  pub run-IsLater :
      (content_hash : ExecutionEvent → ℕ) (intent_hash : OrderIntent → ℕ) (k l m : Ledger)
      → Reaches allocate content_hash intent_hash l m
      → IsLater k l
      → IsLater k m
  run-IsLater content_hash intent_hash k =
      Reaches-keeps allocate content_hash intent_hash (IsLater k)
        (λ l m i r. record {
          bound = λ o. Bound-trans _ _ _ (i.bound o) (Bound-Revised _ _ (r.revised o));
          initial = ap initial_account r.same_account ∙ i.initial;
          created = rw r.same_account i.created;
        })
        (λ l m e i a. record {
          bound = λ o. Bound-trans _ _ _ (i.bound o) (admission-IsBound allocate l m e a o);
          initial = (admission-IsTimed allocate l m e a).initial ∙ i.initial;
          created = (admission-IsTimed allocate l m e a).created ∙ i.created;
        })
