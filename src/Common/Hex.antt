-- ===== src/Common/Hex.antt =====
-- Lower-case hexadecimal digits: `HEX[value >> 4]` and `HEX[value & 0x0f]` of several files.
use Prim.Native.Nat.{ℕ, ◌/◌, ◌%◌, ◌-◌, ◌<◌, bit_and}
use mathlib.Core.Path.{◌≡◌, refl, ap, ◌∙◌, sym}
use mathlib.Core.List.{[], ◌∷◌}
use native.Mathlib.Omega.{arith}
use aviutl2mcp.Common.Tests.{if◌then◌else◌, ltb}
use aviutl2mcp.Common.Lists.{get_or}
use aviutl2mcp.Common.ByteLists.{Bytes, IsBytes, text}
use aviutl2mcp.Common.Bits.{all_below, agree_on_bytes}

unfoldable pub hex_digit : ℕ → ℕ
unfolding text
hex_digit n = get_or (text "0123456789abcdef") n 0

-- Two digits for each byte, the high one first.
unfoldable pub hex : Bytes → Bytes
hex [] = []
hex (b ∷ bs) = hex_digit (b / 16) ∷ hex_digit (bit_and b 0x0f) ∷ hex bs

-- The number that a digit stands for.
abbrev digit_value : ℕ → ℕ
digit_value c = if ltb c 58 then c - 48 else c - 87

digit_high : (b : ℕ) → b < 256 → digit_value (hex_digit (b / 16)) ≡ b / 16
unfolding all_below hex_digit
digit_high = agree_on_bytes (λ b. digit_value (hex_digit (b / 16))) (λ b. b / 16) refl

digit_low : (b : ℕ) → b < 256 → digit_value (hex_digit (bit_and b 0x0f)) ≡ b % 16
unfolding all_below hex_digit
digit_low = agree_on_bytes (λ b. digit_value (hex_digit (bit_and b 0x0f))) (λ b. b % 16) refl

-- Different bytes have different digits.
pub hex-injective : (xs ys : Bytes) → IsBytes xs → IsBytes ys → hex xs ≡ hex ys → xs ≡ ys
unfolding hex
hex-injective [] [] p q h = refl
hex-injective [] (y ∷ ys) p q h = cc
hex-injective (x ∷ xs) [] p q h = cc
hex-injective (x ∷ xs) (y ∷ ys) p q h =
    let high : hex_digit (x / 16) ≡ hex_digit (y / 16) = cc in
    let low : hex_digit (bit_and x 0x0f) ≡ hex_digit (bit_and y 0x0f) = cc in
    let rest : xs ≡ ys = hex-injective xs ys p.1 q.1 (cc) in
    let e : x ≡ y = omega (
      arith,
      sym (digit_high x p.0) ∙ ap digit_value high ∙ digit_high y q.0,
      sym (digit_low x p.0) ∙ ap digit_value low ∙ digit_low y q.0,
    ) in
    cc
