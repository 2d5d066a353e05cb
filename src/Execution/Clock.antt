-- ===== src/Execution/Clock.antt =====
-- The times and sequences of the fills of an account, which ascend in the order of admission.
use ai_trading_platform.Prelude.{
  ℕ, ◌≤◌, ◌≡◌, refl, false, Option, none, some, List, [], ◌∷◌, ◌++◌, leb, All, arith, Bool-cases,
  inl, inr, Ensures, Ensures->>=,
}
use ai_trading_platform.Timeframe.{Datetime}
use ai_trading_platform.Normalize.Sorting.{NotBefore, Ascending}
use ai_trading_platform.Execution.Models.{InstrumentProfile, ExecutionEvent, Account}
use ai_trading_platform.Execution.Accounting.{
  is_before, check_fill, fill_step, finish_fill, apply_fill,
}
use ai_trading_platform.Execution.Replay.{initial_account, received_by}

-- `t` is not after the time, if there is one.
abbrev pub Within : Option Datetime → Datetime → Type 0
Within none t = ⊥
Within (some u) t = t ≤ u

pub Within-not_before :
    (o : Option Datetime) (t u : Datetime) → is_before u o ≡ false → Within o t → t ≤ u
Within-not_before none t u h w = absurd w
Within-not_before (some v) t u h w = ground (arith, h, w)

-- What a fill does to the account's clock, and what it leaves alone.
pub record IsTimed (a : Account) (e : ExecutionEvent) (b : Account) : Type 0 where
  pub initial : initial_account b ≡ initial_account a
  pub sequenced : a.last_sequence ≤ e.provenance.sequence
  pub not_before : is_before e.filled_at a.last_filled_at ≡ false
  pub not_seen_before : is_before e.received_at a.updated_at ≡ false
  pub last_sequence : b.last_sequence ≡ e.provenance.sequence
  pub last_filled : b.last_filled_at ≡ some e.filled_at
  pub updated : b.updated_at ≡ some e.received_at
  pub created : b.created_at ≡ a.created_at

pub apply_fill-IsTimed :
    (allocate : ℕ → ℕ → ℕ → ℕ) (a : Account) (e : ExecutionEvent) (p : InstrumentProfile)
    (plan : Option ℕ)
    → Ensures (IsTimed a e) (apply_fill allocate a e p plan)
unfolding apply_fill finish_fill check_fill
apply_fill-IsTimed allocate a e p plan =
    Ensures->>= (IsTimed a e) (check_fill a e p) _ (λ u checked.
      Ensures->>= (IsTimed a e) (fill_step allocate a e p plan) _ (λ s made. record {
        initial = refl;
        sequenced = ground (arith, checked);
        not_before = ground (arith, checked);
        not_seen_before = ground (arith, checked);
        last_sequence = refl;
        last_filled = refl;
        updated = refl;
        created = refl;
      }))

-- Every item is at most the new one, which so comes last in the order.
module _ (key : ExecutionEvent → ℕ) where
  NotBefore-append :
      (t : ℕ) (e : ExecutionEvent) (fs : List ExecutionEvent)
      → t ≤ key e
      → NotBefore key t fs
      → NotBefore key t (fs ++ e ∷ [])
  NotBefore-append t e [] le n = (le, tt)
  NotBefore-append t e (f ∷ fs) le n = (n.0, NotBefore-append t e fs le n.1)

  pub Ascending-append :
      (e : ExecutionEvent) (fs : List ExecutionEvent)
      → Ascending key fs
      → All (λ f. key f ≤ key e) fs
      → Ascending key (fs ++ e ∷ [])
  Ascending-append e [] a le = (tt, tt)
  Ascending-append e (f ∷ fs) a le =
      (NotBefore-append (key f) e fs le.0 a.0, Ascending-append e fs a.1 le.1)

  NotBefore-received_by :
      (t cutoff : ℕ) (fs : List ExecutionEvent)
      → NotBefore key t fs
      → NotBefore key t (received_by cutoff fs)
  unfolding received_by
  NotBefore-received_by t cutoff [] n = tt
  NotBefore-received_by t cutoff (f ∷ fs) n = elim (Bool-cases (leb f.received_at cutoff)) [
    | inl e ↦ rw e (n.0, NotBefore-received_by t cutoff fs n.1)
    | inr e ↦ rw e (NotBefore-received_by t cutoff fs n.1)
  ]

  pub Ascending-received_by :
      (cutoff : ℕ) (fs : List ExecutionEvent)
      → Ascending key fs
      → Ascending key (received_by cutoff fs)
  unfolding received_by
  Ascending-received_by cutoff [] a = tt
  Ascending-received_by cutoff (f ∷ fs) a = elim (Bool-cases (leb f.received_at cutoff)) [
    | inl e ↦
        rw e (NotBefore-received_by (key f) cutoff fs a.0, Ascending-received_by cutoff fs a.1)
    | inr e ↦ rw e (Ascending-received_by cutoff fs a.1)
  ]
