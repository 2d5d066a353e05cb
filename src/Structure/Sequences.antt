-- ===== src/Structure/Sequences.antt =====
-- The slices that the code takes of a list.
use ai_trading_platform.Prelude.{
  ℕ, zero, suc, ◌≤◌, ◌≡◌, ap, ◌∙◌, sym, refl, Bool, true, ◌&&◌, Option, none, some, List, [], ◌∷◌,
  ◌++◌, length, leb, if◌then◌else◌, arith, length-append,
}

module _ {A : Type 0} where
  -- `xs[:n]`
  unfoldable pub take : ℕ → List A → List A
  take zero xs = []
  take (suc n) [] = []
  take (suc n) (x ∷ xs) = x ∷ take n xs

  -- `xs[-n:]`, for a positive n
  unfoldable pub last_n : ℕ → List A → List A
  last_n n [] = []
  last_n n (x ∷ xs) = if leb (length (x ∷ xs)) n then x ∷ xs else last_n n xs

  -- `[x for x in xs if test(x)]`
  unfoldable pub filter : (A → Bool) → List A → List A
  filter p [] = []
  filter p (x ∷ xs) = if p x then x ∷ filter p xs else filter p xs

  -- `all(test(x) for x in xs)`
  unfoldable pub all : (A → Bool) → List A → Bool
  all p [] = true
  all p (x ∷ xs) = p x && all p xs

  -- `xs[-1] if xs else None`
  unfoldable pub last : List A → Option A
  last [] = none
  last (x ∷ []) = some x
  last (x ∷ y ∷ ys) = last (y ∷ ys)

  -- What `ys` starts with.
  abbrev pub Extends : List A → List A → Type 0
  Extends xs ys = (zs : List A) × (ys ≡ xs ++ zs)

  pub Extends-nil : (ys : List A) → Extends [] ys
  Extends-nil ys = (ys, refl)

  pub append_assoc : (xs ys zs : List A) → (xs ++ ys) ++ zs ≡ xs ++ (ys ++ zs)
  append_assoc [] ys zs = refl
  append_assoc (x ∷ xs) ys zs = ap (λ l. x ∷ l) (append_assoc xs ys zs)

  pub append_nil : (xs : List A) → xs ++ [] ≡ xs
  append_nil [] = refl
  append_nil (x ∷ xs) = ap (λ l. x ∷ l) (append_nil xs)

  pub Extends-append : (xs ys zs : List A) → Extends ys zs → Extends (xs ++ ys) (xs ++ zs)
  Extends-append xs ys zs (rest, e) = (rest, ap (λ l. xs ++ l) e ∙ sym (append_assoc xs ys rest))

  pub take-append : (n : ℕ) (xs ys : List A) → n ≤ length xs → take n (xs ++ ys) ≡ take n xs
  unfolding take
  take-append zero xs ys h = refl
  take-append (suc n) [] ys h = absurd (omega (arith, h))
  take-append (suc n) (x ∷ xs) ys h = ap (λ l. x ∷ l) (take-append n xs ys (omega (arith, h)))

  -- Keeping the last n of the last n and one more is keeping the last n of all.
  pub last_n-last_n :
      (n : ℕ) (x : A) (xs : List A) → last_n n (last_n n xs ++ x ∷ []) ≡ last_n n (xs ++ x ∷ [])
  unfolding last_n
  last_n-last_n n x [] = refl
  last_n-last_n n x (y ∷ ys) = ground (arith, last_n-last_n n x ys, length-append ys (x ∷ []))

  pub filter-append :
      (p : A → Bool) (xs ys : List A) → filter p (xs ++ ys) ≡ filter p xs ++ filter p ys
  unfolding filter
  filter-append p [] ys = refl
  filter-append p (x ∷ xs) ys = ground (arith, filter-append p xs ys)
