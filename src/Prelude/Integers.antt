-- ===== src/Prelude/Integers.antt =====
-- Signed amounts over the native numbers. The tactics read an integer through its two parts.
use Prim.Native.Nat.{ℕ, suc, ◌+◌, ◌-◌, ◌≤◌}
use mathlib.Core.Path.{◌≡◌, refl}
use mathlib.Core.Bool.{Bool}
use native.Mathlib.Omega.{arith}
use ai_trading_platform.Prelude.Tests.{ltb, leb, if◌then◌else◌}

-- `negsuc n` is the number below zero by `n + 1`.
pub data ℤ : Type 0 where
  pos negsuc : ℕ → ℤ

abbrev pub pos_part : ℤ → ℕ
pos_part (pos n) = n
pos_part (negsuc n) = 0

abbrev pub neg_part : ℤ → ℕ
neg_part (pos n) = 0
neg_part (negsuc n) = suc n

abbrev pub minus : ℕ → ℕ → ℤ
minus a b = if leb b a then pos (a - b) else negsuc (b - a - 1)

infixl 65 ◌+ℤ◌ ◌-ℤ◌
infix 50 ◌≤ℤ◌
unfoldable pub ◌+ℤ◌ : ℤ → ℤ → ℤ
x +ℤ y = minus (pos_part x + pos_part y) (neg_part x + neg_part y)

unfoldable pub ◌-ℤ◌ : ℤ → ℤ → ℤ
x -ℤ y = minus (pos_part x + neg_part y) (neg_part x + pos_part y)

abbrev pub ◌≤ℤ◌ : ℤ → ℤ → Type 0
x ≤ℤ y = pos_part x + neg_part y ≤ pos_part y + neg_part x

abbrev pub ltb_ℤ : ℤ → ℤ → Bool
ltb_ℤ x y = ltb (pos_part x + neg_part y) (pos_part y + neg_part x)

abbrev pub leb_ℤ : ℤ → ℤ → Bool
leb_ℤ x y = leb (pos_part x + neg_part y) (pos_part y + neg_part x)

pub parts-+ℤ :
    (x y : ℤ)
    → pos_part (x +ℤ y) + (neg_part x + neg_part y) ≡ neg_part (x +ℤ y) + (pos_part x + pos_part y)
unfolding ◌+ℤ◌
parts-+ℤ x y = ground arith

pub parts--ℤ :
    (x y : ℤ)
    → pos_part (x -ℤ y) + (neg_part x + pos_part y) ≡ neg_part (x -ℤ y) + (pos_part x + neg_part y)
unfolding ◌-ℤ◌
parts--ℤ x y = ground arith

pub same_parts : (x y : ℤ) → pos_part x + neg_part y ≡ pos_part y + neg_part x → x ≡ y
same_parts x y h = ground arith

-- An equation of integers in the form that `omega` reads.
pub eq_parts : (x y : ℤ) → x ≡ y → pos_part x + neg_part y ≡ pos_part y + neg_part x
eq_parts x y h = rw h refl

pub ruleset amounts = (arith, parts-+ℤ, parts--ℤ, same_parts)
