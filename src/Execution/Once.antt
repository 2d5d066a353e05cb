-- ===== src/Execution/Once.antt =====
-- A fill is booked once, however often it is delivered.
use ai_trading_platform.Prelude.{
  ℕ, ◌≡◌, refl, Bool, true, ◌&&◌, some, [], ◌∷◌, ◌++◌, ◌==◌, if◌then◌else◌, arith, inl, inr, ok,
  err, Ensures-ok,
}
use ai_trading_platform.Execution.Models.{
  changed_economic_fill, validate_event, ExecutionEvent, OrderIntent, InstrumentProfile,
}
use ai_trading_platform.Execution.Ledger.{
  Ledger, record_fill, find_fill, economic_content_hash, admit,
}
use ai_trading_platform.Execution.Rows.{find_fill-append}
use ai_trading_platform.Execution.Steps.{Reaches, Reaches-keeps, IsAdmission, admit-cases}

module _ (allocate : ℕ → ℕ → ℕ → ℕ) (content_hash : ExecutionEvent → ℕ)
    (intent_hash : OrderIntent → ℕ) where
  IsBooked : ℕ → ExecutionEvent → Ledger → Type 0
  IsBooked k f l = find_fill k l.fills ≡ some f

  admission-IsBooked :
      (k : ℕ) (f : ExecutionEvent) (l m : Ledger) (e : ExecutionEvent)
      → IsBooked k f l
      → IsAdmission allocate l e m
      → IsBooked k f m
  unfolding IsBooked record_fill
  admission-IsBooked k f l m e booked a =
      let fills : m.fills ≡ l.fills ++ e ∷ [] = rw a.recorded refl in
      rw (fills, find_fill-append k e l.fills, booked) refl

  run-IsBooked :
      (k : ℕ) (f : ExecutionEvent) (l m : Ledger)
      → Reaches allocate content_hash intent_hash l m
      → IsBooked k f l
      → IsBooked k f m
  unfolding IsBooked
  run-IsBooked k f =
      Reaches-keeps allocate content_hash intent_hash (IsBooked k f) (λ l m b r. rw r.same_fills b)
        (admission-IsBooked k f)

  admitted-IsBooked :
      (active allow_new_fill : Bool) (e f : ExecutionEvent) (profile : InstrumentProfile)
      (l m : Ledger)
      → admit allocate content_hash active allow_new_fill e profile l ≡ ok (f, m)
      → IsBooked e.external_fill_id f m
  unfolding IsBooked record_fill
  admitted-IsBooked active allow_new_fill e f profile l m h =
      elim (Ensures-ok _ _ (f, m)
        (admit-cases allocate content_hash active allow_new_fill e profile l) h) [
          | inl (same, known) ↦ rw same known
          | inr (is_e, a) ↦
              let fills : m.fills ≡ l.fills ++ e ∷ [] = rw a.recorded refl in
              rw (fills, find_fill-append e.external_fill_id e l.fills, a.new, is_e) (ground arith)
        ]

  -- Once an event has been admitted, any later delivery of its external fill id, valid and of the
  -- account's scope, changes nothing: it gets the fill that was booked, or is refused if its economic
  -- content has changed.
  pub admit_again :
      (active allow_new_fill : Bool) (e f : ExecutionEvent) (profile : InstrumentProfile)
      (l m n : Ledger)
      → admit allocate content_hash active allow_new_fill e profile l ≡ ok (f, m)
      → Reaches allocate content_hash intent_hash m n
      → (active_then allow_then : Bool) (again : ExecutionEvent) (profile_then : InstrumentProfile)
      → again.external_fill_id ≡ e.external_fill_id
      → validate_event again ≡ ok tt
      → again.execution_source ≡ n.account.account_source
      → again.trading_account_id ≡ n.account.account_id
      → admit allocate content_hash active_then allow_then again profile_then n ≡ (
          if economic_content_hash content_hash f == economic_content_hash content_hash again
          then ok (f, n)
          else err changed_economic_fill)
  unfolding admit IsBooked
  admit_again active allow_new_fill e f profile l m n h run active_then allow_then again
        profile_then same valid source account =
      let booked =
        run-IsBooked e.external_fill_id f m n run
          (admitted-IsBooked active allow_new_fill e f profile l m h) in
      let scope : ((again.execution_source == n.account.account_source)
            && (again.trading_account_id == n.account.account_id))
          ≡ true =
        ground (arith, source, account) in
      let found : find_fill again.external_fill_id n.fills ≡ some f = cc in
      rw (admit, valid, scope, found) refl
