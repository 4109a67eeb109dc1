-- ===== src/Revisions/Decimal.antt =====
-- The decimal text of a number gives the number back.
use aviutl2mcp.Common.{
  ℕ, zero, suc, ◌+◌, ◌-◌, ◌*◌, ◌/◌, ◌%◌, ◌^◌, ◌<◌, ◌≡◌, sym, ap, ◌∙◌, [], ◌∷◌, Bytes, ◌==◌,
  Bool-cases, inl, inr, arith,
}
use native.Mathlib.Nat.{pow-suc}
use aviutl2mcp.Revisions.{digits_from, to_string}

-- Reads digits from the left.
abbrev value : ℕ → Bytes → ℕ
value acc [] = acc
value acc (c ∷ cs) = value (acc * 10 + (c - b'0')) cs

digits_from-value :
    (fuel n : ℕ) (tail : Bytes) → n < 10 ^ fuel → value 0 (digits_from fuel n tail) ≡ value n tail
unfolding digits_from
digits_from-value zero n tail h = let e : n ≡ 0 = omega arith in rw e
digits_from-value (suc fuel) n tail h = elim (Bool-cases (n / 10 == 0)) [
  | inl small ↦
      let e : n % 10 ≡ n = ground arith in
      let d : 0 * 10 + (b'0' + n % 10 - b'0') ≡ n = omega (arith, e) in
      rw small (ap (λ (k : ℕ). value k tail) d)
  | inr large ↦
      let d : n / 10 * 10 + (b'0' + n % 10 - b'0') ≡ n = omega arith in
      rw large (
        digits_from-value fuel (n / 10) ((b'0' + n % 10) ∷ tail) (omega (arith, pow-suc 10 fuel))
        ∙ ap (λ (k : ℕ). value k tail) d)
]

pub value-to_string : (n : ℕ) → n < 2 ^ 64 → value 0 (to_string n) ≡ n
unfolding to_string
value-to_string n h = digits_from-value 20 n [] (omega arith)

-- Different numbers have different texts.
pub to_string-injective : (n m : ℕ) → n < 2 ^ 64 → m < 2 ^ 64 → to_string n ≡ to_string m → n ≡ m
to_string-injective n m hn hm e = sym (value-to_string n hn) ∙ ap (value 0) e ∙ value-to_string m hm
