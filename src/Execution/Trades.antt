-- ===== src/Execution/Trades.antt =====
-- The trades of an account are named by its fills, so its books are kept through a run of the ledger.
use ai_trading_platform.Prelude.{
  ℕ, ◌≡◌, ◌∙◌, ◌⊎◌, sym, refl, ap, Bool, false, ◌||◌, Option, none, List, [], ◌∷◌, ◌++◌, ltb, ◌==◌,
  if◌then◌else◌, arith, is_some, Bool-cases, Option-cases, inl, inr, Ensures, Ensures->>=,
  Ensures-ok,
}
use ai_trading_platform.Execution.Models.{InstrumentProfile, ExecutionEvent, Position, Account}
use ai_trading_platform.Execution.Accounting.{
  Step, check_fill, find_position, find_trade, opened_trade, add_step, reduce_step, open_position,
  has_funds, fill_step, finish_fill, apply_fill, same_direction, side_direction,
}
use ai_trading_platform.Execution.Books.{find_trade-replace_trade, find_trade-append}
use ai_trading_platform.Execution.Filling.{IsBook, apply_fill-IsBook}
use ai_trading_platform.Execution.Ledger.{Ledger, has_fill_key, record_fill}
use ai_trading_platform.Execution.Steps.{IsRevision, IsAdmission}

-- The trades that a branch of `apply_fill` hands on.
abbrev IsGrown : Account → ExecutionEvent → Option ℕ → Step → Type 0
IsGrown a e plan s =
    (s.step_trades ≡ a.trades) ⊎ (s.step_trades ≡ a.trades ++ opened_trade e plan ∷ [])

add_step-trades :
    (a : Account) (e : ExecutionEvent) (p : InstrumentProfile) (current : Position)
    (plan : Option ℕ)
    → Ensures (IsGrown a e plan) (add_step a e p current)
unfolding add_step
add_step-trades a e p current plan =
    elim (Bool-cases (current.position_instrument == p.reference)) [
      | inr changed ↦ rw changed tt
      | inl same ↦ elim (Option-cases (find_trade current.position_trade a.trades)) [
        | inl missing ↦ rw (same, missing) tt
        | inr (t, found) ↦ rw (same, found) (inl refl)
      ]
    ]

reduce_step-trades :
    (allocate : ℕ → ℕ → ℕ → ℕ) (a : Account) (e : ExecutionEvent) (current : Position)
    (plan : Option ℕ)
    → Ensures (IsGrown a e plan) (reduce_step allocate a e current)
unfolding reduce_step
reduce_step-trades allocate a e current plan =
    let allocated =
      if e.quantity == current.held
      then current.remaining_cost_basis
      else allocate current.remaining_cost_basis current.held e.quantity in
    elim (Bool-cases (ltb current.held e.quantity)) [
      | inl over ↦ rw over tt
      | inr enough ↦ elim (Option-cases (find_trade current.position_trade a.trades)) [
        | inl missing ↦ rw (enough, missing) tt
        | inr (t, found) ↦ elim (Bool-cases (ltb current.remaining_cost_basis allocated)) [
          | inl below ↦ rw (enough, found, below) tt
          | inr covered ↦ rw (enough, found, covered) (inl refl)
        ]
      ]
    ]

fill_step-trades :
    (allocate : ℕ → ℕ → ℕ → ℕ) (a : Account) (e : ExecutionEvent) (p : InstrumentProfile)
    (plan : Option ℕ)
    → Ensures (IsGrown a e plan) (fill_step allocate a e p plan)
unfolding fill_step
fill_step-trades allocate a e p plan =
    elim (Option-cases (open_position (find_position e.event_symbol a.positions))) [
      | inl flat ↦ elim (Bool-cases (has_funds a e)) [
        | inl funds ↦ rw (fill_step, flat, funds) (inr refl)
        | inr short ↦ rw (fill_step, flat, short) tt
      ]
      | inr (current, here) ↦
          elim (Bool-cases (same_direction current.direction (side_direction e.side))) [
            | inr against ↦
                rw (fill_step, here, against) (reduce_step-trades allocate a e current plan)
            | inl along ↦ elim (Bool-cases (has_funds a e)) [
              | inl funds ↦ rw (fill_step, here, along, funds) (add_step-trades a e p current plan)
              | inr short ↦ rw (fill_step, here, along, short) tt
            ]
          ]
    ]

-- A trade of the account is one of those before, or is named by the fill.
apply_fill-trades :
    (allocate : ℕ → ℕ → ℕ → ℕ) (a : Account) (e : ExecutionEvent) (p : InstrumentProfile)
    (plan : Option ℕ) (k : ℕ)
    → find_trade k a.trades ≡ none
    → (e.event_id == k) ≡ false
    → Ensures (λ b. is_some (find_trade k b.trades) ≡ false) (apply_fill allocate a e p plan)
unfolding apply_fill finish_fill
apply_fill-trades allocate a e p plan k absent other =
    let Promise : Account → Type 0 = λ b. is_some (find_trade k b.trades) ≡ false in
    Ensures->>= Promise (check_fill a e p) _ (λ u checked.
      Ensures->>= Promise (fill_step allocate a e p plan) _ (λ s made.
        find_trade-replace_trade k _ s.step_trades
        ∙ elim (Ensures-ok (IsGrown a e plan) (fill_step allocate a e p plan) s
            (fill_step-trades allocate a e p plan) made) [
              | inl same ↦ rw (same, absent) refl
              | inr grown ↦
                  rw (grown, find_trade-append k (opened_trade e plan) a.trades, absent, other) refl
            ]))

-- A fill has the event id.
unfoldable pub has_event : ℕ → List ExecutionEvent → Bool
has_event k [] = false
has_event k (f ∷ fs) = (f.event_id == k) || has_event k fs

has_event-append :
    (k : ℕ) (e : ExecutionEvent) (fs : List ExecutionEvent)
    → has_event k (fs ++ e ∷ []) ≡ (has_event k fs || (e.event_id == k))
unfolding has_event
has_event-append k e [] = ground arith
has_event-append k e (f ∷ fs) = ground (arith, has_event-append k e fs)

has_fill_key-event :
    (e : ExecutionEvent) (fs : List ExecutionEvent)
    → has_fill_key e fs ≡ false
    → has_event e.event_id fs ≡ false
unfolding has_fill_key has_event
has_fill_key-event e [] h = refl
has_fill_key-event e (f ∷ fs) h = ground (arith, h, has_fill_key-event e fs)

-- The books are kept, and every trade is named by a fill.
pub record IsSound (l : Ledger) : Type 0 where
  pub book : IsBook l.account
  pub named : (k : ℕ) → has_event k l.fills ≡ false → find_trade k l.account.trades ≡ none

pub revision-IsSound : (l m : Ledger) → IsSound l → IsRevision l m → IsSound m
revision-IsSound l m i r = record {
  book = rw r.same_account i.book;
  named = λ k absent. rw r.same_account (i.named k (ap (has_event k) (sym r.same_fills) ∙ absent));
}

pub admission-IsSound :
    (allocate : ℕ → ℕ → ℕ → ℕ) (l m : Ledger) (e : ExecutionEvent)
    → IsSound l
    → IsAdmission allocate l e m
    → IsSound m
unfolding record_fill
admission-IsSound allocate l m e i a =
    let fresh = i.named e.event_id (has_fill_key-event e l.fills a.unique) in
    rw a.recorded (record {
      book =
          Ensures-ok IsBook _ a.updated (apply_fill-IsBook allocate l.account e _ _ i.book fresh)
            a.applied;
      named = λ k absent.
          let both = sym (has_event-append k e l.fills) ∙ absent in
          let gone =
            Ensures-ok (λ b. is_some (find_trade k b.trades) ≡ false) _ a.updated
              (apply_fill-trades allocate l.account e _ _ k (i.named k (ground (arith, both)))
                (ground (arith, both)))
              a.applied in
          ground (arith, gone);
    })
