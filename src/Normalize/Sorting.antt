-- ===== src/Normalize/Sorting.antt =====
-- The stable sort: a permutation that ascends, and the identity on what ascends already.
use mathlib.Core.List.{Perm}
use mathlib.Core.List.Perm
use ai_trading_platform.Prelude.{
  All, ◌≤◌, ◌≡◌, ◌∙◌, ap, List, [], ◌∷◌, arith, Bool-cases, inl, inr, leb, refl,
}
use ai_trading_platform.Timeframe.{Datetime}
use ai_trading_platform.Normalize.Defs.{insert_sorted, sorted}

module _ {ℓ} {A : Type ℓ} (timestamp : A → Datetime) where
  abbrev pub NotBefore : Datetime → List A → Type 0
  NotBefore t [] = Unit
  NotBefore t (y ∷ ys) = (t ≤ timestamp y) × NotBefore t ys

  abbrev pub Ascending : List A → Type 0
  Ascending [] = Unit
  Ascending (x ∷ xs) = NotBefore (timestamp x) xs × Ascending xs

  NotBefore-mono : (s t : Datetime) (xs : List A) → s ≤ t → NotBefore t xs → NotBefore s xs
  NotBefore-mono s t [] h n = tt
  NotBefore-mono s t (x ∷ xs) h n = (omega arith, NotBefore-mono s t xs h n.1)

  NotBefore-insert_sorted :
      (t : Datetime) (x : A) (ys : List A)
      → t ≤ timestamp x
      → NotBefore t ys
      → NotBefore t (insert_sorted timestamp x ys)
  unfolding insert_sorted
  NotBefore-insert_sorted t x [] h n = (h, tt)
  NotBefore-insert_sorted t x (y ∷ ys) h n = ground (arith, NotBefore-insert_sorted t x ys h n.1)

  Ascending-insert_sorted :
      (x : A) (ys : List A) → Ascending ys → Ascending (insert_sorted timestamp x ys)
  unfolding insert_sorted
  Ascending-insert_sorted x [] a = (tt, tt)
  Ascending-insert_sorted x (y ∷ ys) a = ground (
    arith,
    NotBefore-mono (timestamp x) (timestamp y) ys,
    NotBefore-insert_sorted (timestamp y) x ys,
    Ascending-insert_sorted x ys a.1,
  )

  pub Ascending-sorted : (xs : List A) → Ascending (sorted timestamp xs)
  unfolding sorted
  Ascending-sorted [] = tt
  Ascending-sorted (x ∷ xs) = Ascending-insert_sorted x (sorted timestamp xs) (Ascending-sorted xs)

  insert_sorted-perm : (x : A) (ys : List A) → Perm (insert_sorted timestamp x ys) (x ∷ ys)
  unfolding insert_sorted
  insert_sorted-perm x [] = Perm.refl (x ∷ [])
  insert_sorted-perm x (y ∷ ys) = elim (Bool-cases (leb (timestamp x) (timestamp y))) [
    | inl le ↦ rw le (Perm.refl (x ∷ y ∷ ys))
    | inr gt ↦ rw gt (Perm.trans (Perm.cons y (insert_sorted-perm x ys)) (Perm.swap x y ys))
  ]

  pub sorted-perm : (xs : List A) → Perm (sorted timestamp xs) xs
  unfolding sorted
  sorted-perm [] = Perm.refl []
  sorted-perm (x ∷ xs) =
      Perm.trans (insert_sorted-perm x (sorted timestamp xs)) (Perm.cons x (sorted-perm xs))

  insert_sorted-first :
      (x : A) (ys : List A) → NotBefore (timestamp x) ys → insert_sorted timestamp x ys ≡ x ∷ ys
  unfolding insert_sorted
  insert_sorted-first x [] n = refl
  insert_sorted-first x (y ∷ ys) n = ground arith

  pub sorted-of_Ascending : (xs : List A) → Ascending xs → sorted timestamp xs ≡ xs
  unfolding sorted
  sorted-of_Ascending [] a = refl
  sorted-of_Ascending (x ∷ xs) a =
      ap (insert_sorted timestamp x) (sorted-of_Ascending xs a.1) ∙ insert_sorted-first x xs a.0

-- A sort keeps what holds of every item.
module _ {ℓ} {A : Type ℓ} (timestamp : A → Datetime) (P : A → Type 0) where
  All-insert_sorted : (x : A) (xs : List A) → P x → All P xs → All P (insert_sorted timestamp x xs)
  unfolding insert_sorted
  All-insert_sorted x [] p a = (p, tt)
  All-insert_sorted x (y ∷ ys) p a = elim (Bool-cases (leb (timestamp x) (timestamp y))) [
    | inl e ↦ rw e (p, a)
    | inr n ↦ rw n (a.0, All-insert_sorted x ys p a.1)
  ]

  pub All-sorted : (xs : List A) → All P xs → All P (sorted timestamp xs)
  unfolding sorted
  All-sorted [] a = tt
  All-sorted (x ∷ xs) a = All-insert_sorted x (sorted timestamp xs) a.0 (All-sorted xs a.1)
