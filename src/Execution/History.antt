-- ===== src/Execution/History.antt =====
-- The account that the ledger keeps is the replay of its fills.
use ai_trading_platform.Prelude.{
  ℕ, ◌≤◌, ◌≡◌, refl, List, [], ◌∷◌, ◌++◌, All, arith, Option-cases, inl, inr, ok, >>=-returned,
  Ensures-ok,
}
use ai_trading_platform.Normalize.Sorting.{Ascending}
use ai_trading_platform.Execution.Models.{ExecutionEvent, Account}
use ai_trading_platform.Execution.Ledger.{OrderRow, Ledger, find_order, record_fill, filled_order}
use ai_trading_platform.Execution.Rows.{find_order-id, All-append}
use ai_trading_platform.Execution.Books.{All-map}
use ai_trading_platform.Execution.Steps.{IsRevision, IsAdmission}
use ai_trading_platform.Execution.Replay.{
  initial_account, sequence_of, filled_at_of, replay_fill, replay_fills,
}
use ai_trading_platform.Execution.Bindings.{Bound-Revised, Bound-found, IsBound, IsBound-put_order}
use ai_trading_platform.Execution.Clock.{
  Within, Within-not_before, IsTimed, apply_fill-IsTimed, Ascending-append,
}

module _ (allocate : ℕ → ℕ → ℕ → ℕ) where
  pub replay_fill-IsBound :
      (rs ss : List OrderRow) (a b : Account) (f : ExecutionEvent)
      → IsBound rs ss
      → replay_fill allocate rs a f ≡ ok b
      → replay_fill allocate ss a f ≡ ok b
  unfolding replay_fill
  replay_fill-IsBound rs ss a b f bound h =
      elim (Option-cases (find_order f.internal_order_id rs)) [
        | inl missing ↦ absurd (ground (arith, h, missing))
        | inr (r, here) ↦
            let (s, there, profile, intent) = Bound-found _ _ r (bound f.internal_order_id) here in
            rw (replay_fill, there, profile, intent) (ground (arith, h, here))
      ]

  pub replay_fills-IsBound :
      (rs ss : List OrderRow) (a b : Account) (fs : List ExecutionEvent)
      → IsBound rs ss
      → replay_fills allocate rs a fs ≡ ok b
      → replay_fills allocate ss a fs ≡ ok b
  unfolding replay_fills
  replay_fills-IsBound rs ss a b [] bound h = h
  replay_fills-IsBound rs ss a b (f ∷ fs) bound h =
      let (c, first, rest) = >>=-returned (replay_fill allocate rs a f) _ h in
      let same = replay_fill-IsBound rs ss a c f bound first in
      rw (replay_fills, same) (replay_fills-IsBound rs ss c b fs bound rest)

  pub replay_fills-append :
      (rs : List OrderRow) (a b c : Account) (e : ExecutionEvent) (fs : List ExecutionEvent)
      → replay_fills allocate rs a fs ≡ ok b
      → replay_fill allocate rs b e ≡ ok c
      → replay_fills allocate rs a (fs ++ e ∷ []) ≡ ok c
  unfolding replay_fills
  replay_fills-append rs a b c e [] h last = let same : a ≡ b = cc in rw (same, last) refl
  replay_fills-append rs a b c e (f ∷ fs) h last =
      let (d, first, rest) = >>=-returned (replay_fill allocate rs a f) _ h in
      rw (replay_fills, first) (replay_fills-append rs d b c e fs rest last)

  -- The account is the replay of the fills, which are in the order of the replay.
  pub record IsHistory (l : Ledger) : Type 0 where
    pub replays : replay_fills allocate l.orders (initial_account l.account) l.fills ≡ ok l.account
    pub sequences : Ascending sequence_of l.fills
    pub sequenced : All (λ f. f.provenance.sequence ≤ l.account.last_sequence) l.fills
    pub times : Ascending filled_at_of l.fills
    pub timed : All (λ f. Within l.account.last_filled_at f.filled_at) l.fills
    pub seen : All (λ f. Within l.account.updated_at f.received_at) l.fills
    pub opened : Within l.account.updated_at l.account.created_at

  pub revision-IsHistory : (l m : Ledger) → IsHistory l → IsRevision l m → IsHistory m
  revision-IsHistory l m i r = record {
    replays =
        rw (r.same_account, r.same_fills)
          (replay_fills-IsBound l.orders m.orders (initial_account l.account) l.account l.fills
            (λ k. Bound-Revised _ _ (r.revised k)) i.replays);
    sequences = rw r.same_fills i.sequences;
    sequenced = rw (r.same_account, r.same_fills) i.sequenced;
    times = rw r.same_fills i.times;
    timed = rw (r.same_account, r.same_fills) i.timed;
    seen = rw (r.same_account, r.same_fills) i.seen;
    opened = rw r.same_account i.opened;
  }

  pub admission-IsBound :
      (l m : Ledger) (e : ExecutionEvent) → IsAdmission allocate l e m → IsBound l.orders m.orders
  unfolding record_fill
  admission-IsBound l m e a =
      let id = find_order-id e.internal_order_id a.row l.orders a.found in
      rw a.recorded (IsBound-put_order a.row (filled_order a.row.order e) l.orders (cc) refl)

  pub admission-IsTimed :
      (l m : Ledger) (e : ExecutionEvent)
      → IsAdmission allocate l e m
      → IsTimed l.account e m.account
  unfolding record_fill
  admission-IsTimed l m e a = rw a.recorded (
      Ensures-ok (IsTimed l.account e) _ a.updated (apply_fill-IsTimed allocate l.account e _ _)
        a.applied)

  pub admission-IsHistory :
      (l m : Ledger) (e : ExecutionEvent) → IsHistory l → IsAdmission allocate l e m → IsHistory m
  unfolding record_fill replay_fill
  admission-IsHistory l m e i a =
      let t =
        Ensures-ok (IsTimed l.account e) _ a.updated (apply_fill-IsTimed allocate l.account e _ _)
          a.applied in
      let here : replay_fill allocate l.orders l.account e ≡ ok a.updated =
        rw (replay_fill, a.found) a.applied in
      let all =
        replay_fills-append l.orders (initial_account l.account) l.account a.updated e l.fills
          i.replays here in
      let timed =
        All-map _ (λ f. f.filled_at ≤ e.filled_at) l.fills
          (λ f. Within-not_before l.account.last_filled_at f.filled_at e.filled_at t.not_before)
          i.timed in
      let sequenced =
        All-map _ (λ f. f.provenance.sequence ≤ e.provenance.sequence) l.fills
          (λ f le. omega (arith, le, t.sequenced)) i.sequenced in
      let bound =
        IsBound-put_order a.row (filled_order a.row.order e) l.orders
          (cc (find_order-id e.internal_order_id a.row l.orders a.found)) refl in
      rw a.recorded (record {
        replays = rw t.initial (
            replay_fills-IsBound l.orders _ (initial_account l.account) a.updated
              (l.fills ++ e ∷ []) bound all);
        sequences = Ascending-append sequence_of e l.fills i.sequences sequenced;
        sequenced =
            All-append _ e l.fills (rw t.last_sequence sequenced) (omega (arith, t.last_sequence));
        times = Ascending-append filled_at_of e l.fills i.times timed;
        timed = All-append _ e l.fills (rw t.last_filled timed) (rw t.last_filled (omega arith));
        seen =
            All-append _ e l.fills
              (rw t.updated (
                All-map _ (λ f. f.received_at ≤ e.received_at) l.fills
                  (λ f.
                    Within-not_before l.account.updated_at f.received_at e.received_at
                      t.not_seen_before)
                  i.seen))
              (rw t.updated (omega arith));
        opened =
            rw (t.updated, t.created)
              (Within-not_before l.account.updated_at l.account.created_at e.received_at
                t.not_seen_before i.opened);
      })
