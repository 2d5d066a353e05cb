-- ===== src/Execution/Steps/Admissions.antt =====
-- What admitting an execution event to the ledger can end in.
use ai_trading_platform.Prelude.{
  ℕ, ◌≡◌, ◌⊎◌, refl, Bool, true, false, not, none, some, ◌==◌, ◌&&◌, Ensures-map, arith, Bool-cases,
  Option-cases, inl, inr, ok, raise_if, Ensures, Ensures->>=,
}
use ai_trading_platform.Execution.Models.{
  InstrumentProfile, ExecutionEvent, validate_event, Account,
}
use ai_trading_platform.Execution.Accounting.{apply_fill}
use ai_trading_platform.Execution.Ledger.{
  OrderRow, Ledger, find_order, find_fill, has_fill_key, matches_order, held_of, check_intention,
  record_fill, economic_content_hash, admit_new, admit,
}

-- A fill that is recorded.
pub record IsAdmission (allocate : ℕ → ℕ → ℕ → ℕ) (l : Ledger) (e : ExecutionEvent) (m : Ledger)
    : Type 0 where
  pub row : OrderRow
  pub updated : Account
  pub valid : validate_event e ≡ ok tt
  pub new : find_fill e.external_fill_id l.fills ≡ none
  pub found : find_order e.internal_order_id l.orders ≡ some row
  pub matched : matches_order row.order e ≡ true
  pub intended : check_intention row.order e (held_of e.event_symbol l.account.positions) ≡ ok tt
  pub applied :
      apply_fill allocate l.account e row.frozen_profile row.order.intent.plan_reference
      ≡ ok updated
  pub unique : has_fill_key e l.fills ≡ false
  pub recorded : m ≡ record_fill l e row.order updated

admit_new-IsAdmission :
    (allocate : ℕ → ℕ → ℕ → ℕ) (content_hash : ExecutionEvent → ℕ) (active allow_new_fill : Bool)
    (e : ExecutionEvent) (profile : InstrumentProfile) (l : Ledger)
    → validate_event e ≡ ok tt
    → find_fill e.external_fill_id l.fills ≡ none
    → Ensures
        (λ result. (result.0 ≡ e) × IsAdmission allocate l e result.1)
        (admit_new allocate content_hash active allow_new_fill e profile l)
unfolding admit_new
admit_new-IsAdmission allocate content_hash active allow_new_fill e profile l valid new =
    let Promise : ExecutionEvent × Ledger → Type 0 =
      λ result. (result.0 ≡ e) × IsAdmission allocate l e result.1 in
    Ensures->>= Promise (raise_if (not active) _) _ (λ u c.
      Ensures->>= Promise (raise_if (not allow_new_fill) _) _ (λ u c.
        elim (Option-cases (find_order e.internal_order_id l.orders)) [
          | inl missing ↦ rw missing tt
          | inr (row, found) ↦ rw found (
              Ensures->>= Promise
                (raise_if (not (row.order.order_account == l.account.account_id)) _) _
                (λ u c.
                  Ensures->>= Promise
                    (raise_if (not (profile.reference == row.frozen_profile.reference)) _) _
                    (λ u c.
                      Ensures->>= Promise (raise_if (not (matches_order row.order e)) _) _
                        (λ u matching.
                          Ensures->>= Promise
                            (check_intention row.order e
                              (held_of e.event_symbol l.account.positions))
                            _
                            (λ u intended.
                              Ensures->>= Promise
                                (apply_fill allocate l.account e row.frozen_profile
                                  row.order.intent.plan_reference)
                                _
                                (λ updated applied. elim (Bool-cases (has_fill_key e l.fills)) [
                                  | inl taken ↦ rw taken tt
                                  | inr unique ↦ rw unique (
                                    refl,
                                    record {
                                      row = row;
                                      updated = updated;
                                      valid = valid;
                                      new = new;
                                      found = found;
                                      matched = ground (arith, matching);
                                      intended = intended;
                                      applied = applied;
                                      unique = unique;
                                      recorded = refl;
                                    },
                                  )
                                ]))))))
        ]))

pub admit-cases :
    (allocate : ℕ → ℕ → ℕ → ℕ) (content_hash : ExecutionEvent → ℕ) (active allow_new_fill : Bool)
    (e : ExecutionEvent) (profile : InstrumentProfile) (l : Ledger)
    → Ensures
        (λ result.
          ((result.1 ≡ l) × (find_fill e.external_fill_id l.fills ≡ some result.0))
          ⊎ ((result.0 ≡ e) × IsAdmission allocate l e result.1))
        (admit allocate content_hash active allow_new_fill e profile l)
unfolding admit
admit-cases allocate content_hash active allow_new_fill e profile l =
    let Promise : ExecutionEvent × Ledger → Type 0 = λ result.
      ((result.1 ≡ l) × (find_fill e.external_fill_id l.fills ≡ some result.0))
      ⊎ ((result.0 ≡ e) × IsAdmission allocate l e result.1) in
    Ensures->>= Promise (validate_event e) _ (λ u valid.
      Ensures->>= Promise
        (raise_if
          (not (
            (e.execution_source == l.account.account_source)
            && (e.trading_account_id == l.account.account_id)))
          _)
        _
        (λ u c. elim (Option-cases (find_fill e.external_fill_id l.fills)) [
          | inl new ↦ rw new (
              Ensures-map _ _ (admit_new allocate content_hash active allow_new_fill e profile l)
                (λ result a. inr a)
                (admit_new-IsAdmission allocate content_hash active allow_new_fill e profile l valid
                  new))
          | inr (original, known) ↦
              elim (Bool-cases (
                economic_content_hash content_hash original
                == economic_content_hash content_hash e)) [
                  | inl same ↦ rw (known, same) (inl (refl, refl))
                  | inr changed ↦ rw (known, changed) tt
                ]
        ]))
