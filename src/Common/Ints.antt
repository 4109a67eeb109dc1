-- ===== src/Common/Ints.antt =====
-- The integers over the native ℕ, for `std::int32_t` fields and their exact arithmetic.
use Prim.Native.Nat.{ℕ, suc, ◌+◌, ◌-◌}
use mathlib.Core.Path.{◌≡◌}
use mathlib.Core.Bool.{Bool, true, false, not}
use native.Mathlib.Omega.{arith}
use aviutl2mcp.Common.Tests.{ltb, ◌==◌, if◌then◌else◌}

pub data ℤ : Type 0 where
  pos negsuc : ℕ → ℤ

-- `a < b` and `a == b`.
abbrev pub int_lt : ℤ → ℤ → Bool
int_lt (pos m) (pos n) = ltb m n
int_lt (pos m) (negsuc n) = false
int_lt (negsuc m) (pos n) = true
int_lt (negsuc m) (negsuc n) = ltb n m

abbrev pub int_eq : ℤ → ℤ → Bool
int_eq (pos m) (pos n) = m == n
int_eq (pos m) (negsuc n) = false
int_eq (negsuc m) (pos n) = false
int_eq (negsuc m) (negsuc n) = m == n

pub int_eq_refl : (a : ℤ) → int_eq a a ≡ true
int_eq_refl (pos m) = ground arith
int_eq_refl (negsuc m) = ground arith

-- The distance of a number above zero, and below it.
abbrev pub above : ℤ → ℕ
above (pos n) = n
above (negsuc n) = 0

abbrev pub below : ℤ → ℕ
below (negsuc n) = suc n
below (pos n) = 0

abbrev difference : ℕ → ℕ → ℤ
difference up down = if ltb up down then negsuc (down - up - 1) else pos (up - down)

infixl 65 ◌+ℤ◌ ◌-ℤ◌
unfoldable pub ◌+ℤ◌ : ℤ → ℤ → ℤ
a +ℤ b = difference (above a + above b) (below a + below b)

unfoldable pub ◌-ℤ◌ : ℤ → ℤ → ℤ
a -ℤ b = difference (above a + below b) (below a + above b)

-- `a <= b`.
abbrev pub int_le : ℤ → ℤ → Bool
int_le a b = not (int_lt b a)

-- What the sum, the difference and the test say in natural numbers.
pub int_add : (a b : ℤ) → above (a +ℤ b) + below a + below b ≡ below (a +ℤ b) + above a + above b
unfolding ◌+ℤ◌
int_add a b = ground arith

pub int_sub : (a b : ℤ) → above (a -ℤ b) + below a + above b ≡ below (a -ℤ b) + above a + below b
unfolding ◌-ℤ◌
int_sub a b = ground arith

pub int_lt_parts : (a b : ℤ) → int_lt a b ≡ ltb (above a + below b) (above b + below a)
int_lt_parts (pos m) (pos n) = ground arith
int_lt_parts (pos m) (negsuc n) = ground arith
int_lt_parts (negsuc m) (pos n) = ground arith
int_lt_parts (negsuc m) (negsuc n) = ground arith

pub eq_of-int_eq : (a b : ℤ) → int_eq a b ≡ true → a ≡ b
eq_of-int_eq (pos m) (pos n) e = ground arith
eq_of-int_eq (pos m) (negsuc n) e = ground arith
eq_of-int_eq (negsuc m) (pos n) e = ground arith
eq_of-int_eq (negsuc m) (negsuc n) e = ground arith
