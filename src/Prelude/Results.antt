-- ===== src/Prelude/Results.antt =====
-- A call that returns a value or raises an exception of type `E`.
use mathlib.Core.Path.{◌≡◌, refl, subst}
use ai_trading_platform.Prelude.Tests.{if◌then◌else◌}
use mathlib.Core.Logic.{◌⊎◌, inl, inr}
use mathlib.Core.Bool.{Bool, true, false}

module _ {ℓ κ} where
  pub data Result (E : Type ℓ) (A : Type κ) : Type (ℓ ⊔ κ) where
    err : E → Result E A
    ok : A → Result E A

module _ {ℓ κ ι} {E : Type ℓ} {A : Type κ} {B : Type ι} where
  infixl 5 ◌>>=◌
  -- what follows a call is skipped once it has raised
  abbrev pub ◌>>=◌ : Result E A → (A → Result E B) → Result E B
  err raised >>= rest = err raised
  ok value >>= rest = rest value

  -- A block that has returned: the value of its first call, and the block from there.
  pub >>=-returned :
      (call : Result E A) (rest : A → Result E B) {b : B}
      → (call >>= rest) ≡ ok b
      → (value : A) × (call ≡ ok value) × (rest value ≡ ok b)
  >>=-returned (err raised) rest h = cc
  >>=-returned (ok value) rest h = (value, refl, h)

infixl 5 ◌>>◌
abbrev pub ◌>>◌ {ℓ κ} : {E : Type ℓ} {B : Type κ} → Result E (Unit {0}) → Result E B → Result E B
check >> rest = check >>= λ done. rest

-- `if c: raise e`
abbrev pub raise_if {ℓ} : {E : Type ℓ} → Bool → E → Result E (Unit {0})
raise_if true e = err e
raise_if false e = ok tt

-- If the call returns, its value satisfies `P`.
abbrev pub Ensures {ℓ κ ι} : {E : Type ℓ} {A : Type κ} → (A → Type ι) → Result E A → Type ι
Ensures P (ok a) = P a
Ensures P (err e) = Unit

pub Ensures->>= {ℓ κ ι μ} :
    {E : Type ℓ} {A : Type κ} {B : Type ι} (P : B → Type μ) (m : Result E A) (f : A → Result E B)
    → ((a : A) → m ≡ ok a → Ensures P (f a))
    → Ensures P (m >>= f)
Ensures->>= P (ok a) f h = h a refl
Ensures->>= P (err e) f h = tt

pub Ensures-ok {ℓ κ ι} :
    {E : Type ℓ} {A : Type κ} (P : A → Type ι) (m : Result E A) (a : A)
    → Ensures P m
    → m ≡ ok a
    → P a
Ensures-ok P m a h e = subst (Ensures P) e h

pub Ensures-if {ℓ κ ι} :
    {E : Type ℓ} {A : Type κ} (P : A → Type ι) (b : Bool) (m n : Result E A)
    → (b ≡ true → Ensures P m)
    → (b ≡ false → Ensures P n)
    → Ensures P (if b then m else n)
Ensures-if P true m n hm hn = hm refl
Ensures-if P false m n hm hn = hn refl

abbrev pub is_ok {ℓ κ} : {E : Type ℓ} {A : Type κ} → Result E A → Bool
is_ok (ok a) = true
is_ok (err e) = false

pub is_ok-value {ℓ κ} :
    {E : Type ℓ} {A : Type κ} (m : Result E A) → is_ok m ≡ true → (a : A) × (m ≡ ok a)
is_ok-value (ok a) h = (a, refl)
is_ok-value (err e) h = cc

pub is_ok->>= {ℓ κ ι} :
    {E : Type ℓ} {A : Type κ} {B : Type ι} (m : Result E A) (f : A → Result E B)
    → is_ok m ≡ true
    → ((a : A) → m ≡ ok a → is_ok (f a) ≡ true)
    → is_ok (m >>= f) ≡ true
is_ok->>= (ok a) f h k = k a refl
is_ok->>= (err e) f h k = cc

pub Ensures-map {ℓ κ ι μ} :
    {E : Type ℓ} {A : Type κ} (P : A → Type ι) (Q : A → Type μ) (m : Result E A)
    → ((a : A) → P a → Q a)
    → Ensures P m
    → Ensures Q m
Ensures-map P Q (ok a) f h = f a h
Ensures-map P Q (err e) f h = tt

pub bind_split {ℓ κ ι μ} :
    {E : Type ℓ} {A : Type κ} {B : Type ι} {C : Type μ} (m : Result E A) (f : A → Result E C)
    (g : A → Result E B) (h : B → Result E C)
    → ((a : A) → f a ≡ (g a >>= h))
    → (m >>= f) ≡ (m >>= g >>= h)
bind_split (ok a) f g h same = same a
bind_split (err e) f g h same = refl

pub Result-cases {ℓ κ} :
    {E : Type ℓ} {A : Type κ} (m : Result E A) → ((e : E) × (m ≡ err e)) ⊎ ((a : A) × (m ≡ ok a))
Result-cases (err e) = inl (e, refl)
Result-cases (ok a) = inr (a, refl)
