-- ===== src/Common/Bits.antt =====
-- Facts about `bit_and` and `bit_or` at variables: the law for the lowest digit, masks over one
-- byte, and the join of two numbers whose digits do not meet.
use Prim.Native.Nat.{
  ℕ, zero, suc, ◌+◌, ◌*◌, ◌/◌, ◌%◌, ◌^◌, ◌≤◌, ◌<◌, max, bit_or, digits, bit_or-bitwise,
}
use mathlib.Core.Path.{◌≡◌, refl, ap}
use mathlib.Core.Bool.{Bool, true, ◌&&◌}
use native.Mathlib.Omega.{arith}
use native.Mathlib.Nat.{pow-suc}
use aviutl2mcp.Common.Tests.{◌==◌, ==_iff}

-- A test of every number below a bound, by evaluation.
unfoldable pub all_below : (ℕ → Bool) → ℕ → Bool
all_below test zero = true
all_below test (suc bound) = all_below test bound && test bound

all_below_sound :
    (test : ℕ → Bool) (bound x : ℕ) → x < bound → all_below test bound ≡ true → test x ≡ true
unfolding all_below
all_below_sound test zero x small passed = absurd (omega arith)
all_below_sound test (suc bound) x small passed = ground (arith, all_below_sound test bound x)

-- Two functions that agree on every byte.
pub agree_on_bytes :
    (f g : ℕ → ℕ) → all_below (λ x. f x == g x) 256 ≡ true → (x : ℕ) → x < 256 → f x ≡ g x
agree_on_bytes f g table x h = (==_iff _ _).0 (all_below_sound (λ x. f x == g x) 256 x h table)

abbrev or_digits : ℕ → ℕ → ℕ → ℕ
or_digits n a b = digits (λ b. b) max n a b

-- More fuel than digits changes nothing.
or_digits_fuel : (j k x y : ℕ) → x ≤ j → x ≤ k → or_digits j x y ≡ or_digits k x y
or_digits_fuel (suc j) (suc k) (suc x) y enough enough' =
    omega (arith, or_digits_fuel j k (suc x / 2) (y / 2) (omega arith) (omega arith))
or_digits_fuel (suc j) (suc k) zero y enough enough' = refl
or_digits_fuel (suc j) zero zero y enough enough' = refl
or_digits_fuel (suc j) zero (suc x) y enough enough' = absurd (omega arith)
or_digits_fuel zero (suc k) zero y enough enough' = refl
or_digits_fuel zero (suc k) (suc x) y enough enough' = absurd (omega arith)
or_digits_fuel zero zero x y enough enough' = refl

pub zero-bit_or : (b : ℕ) → bit_or 0 b ≡ b
zero-bit_or b = bit_or-bitwise 0 b

bit_or_step : (x y : ℕ) → bit_or x y ≡ bit_or (x / 2) (y / 2) * 2 + max (x % 2) (y % 2)
bit_or_step zero y = omega (arith, zero-bit_or (y / 2), zero-bit_or y)
bit_or_step (suc x) y =
    let half = suc x / 2 in
    let whole = bit_or-bitwise (suc x) y in
    let halved = bit_or-bitwise half (y / 2) in
    omega (arith, or_digits_fuel x half half (y / 2) (omega arith) (omega arith), halved, whole)

double_half : (t : ℕ) → t * 2 / 2 ≡ t
double_half t = omega arith

mul_two_pow_suc : (k b : ℕ) → b * 2 ^ suc k ≡ b * 2 ^ k * 2
mul_two_pow_suc k b = omega (arith, ap (λ (t : ℕ). b * t) (pow-suc 2 k))

-- `a | b << k` where `a` has at most `k` digits.
pub bit_or-shift : (k a b : ℕ) → a < 2 ^ k → bit_or a (b * 2 ^ k) ≡ a + b * 2 ^ k
bit_or-shift zero zero b h = omega (arith, zero-bit_or (b * 1))
bit_or-shift zero (suc a) b h = absurd (omega arith)
bit_or-shift (suc k) a b h = rw (mul_two_pow_suc k b) (
    omega (
      arith,
      bit_or_step a (b * 2 ^ k * 2),
      ap (λ (t : ℕ). bit_or (a / 2) t) (double_half (b * 2 ^ k)),
      bit_or-shift k (a / 2) b (omega (arith, pow-suc 2 k)),
    ))

bit_or-zero_fuel : (n a : ℕ) → a ≤ n → bit_or a 0 ≡ a
bit_or-zero_fuel n zero h = zero-bit_or 0
bit_or-zero_fuel zero (suc a) h = absurd (omega arith)
bit_or-zero_fuel (suc n) (suc a) h =
    omega (arith, bit_or_step (suc a) 0, bit_or-zero_fuel n (suc a / 2) (omega arith))

-- `b << k | a` where `a` has at most `k` digits.
pub shift-bit_or : (k a b : ℕ) → a < 2 ^ k → bit_or (b * 2 ^ k) a ≡ b * 2 ^ k + a
shift-bit_or zero zero b h = omega (arith, bit_or-zero_fuel (b * 1) (b * 1) (omega arith))
shift-bit_or zero (suc a) b h = absurd (omega arith)
shift-bit_or (suc k) a b h = rw (mul_two_pow_suc k b) (
    omega (
      arith,
      bit_or_step (b * 2 ^ k * 2) a,
      ap (λ (t : ℕ). bit_or t (a / 2)) (double_half (b * 2 ^ k)),
      shift-bit_or k (a / 2) b (omega (arith, pow-suc 2 k)),
    ))
