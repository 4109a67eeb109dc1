-- ===== src/Ipc/Utf8/Rounds.antt =====
-- One round of the loop of `validate_utf8`: it reads the encoding of one scalar value, or throws.
use Prim.Native.Nat.{bit_and}
use native.Mathlib.Nat.{mod-eq_of_lt}
use aviutl2mcp.Common.{
  ℕ, suc, ◌+◌, ◌-◌, ◌*◌, ◌/◌, ◌%◌, ◌^◌, ◌≤◌, ◌<◌, ◌≡◌, ◌≢◌, ◌⊎◌, inl, inr, refl, [], ◌∷◌, ◌++◌,
  Bytes, IsBytes, ok, err, arith, ◌>>◌, throw_if, Bool-cases, ltb, ◌&&◌, ◌==◌,
}
use aviutl2mcp.Common.Bits.{agree_on_bytes, all_below, shift-bit_or}
use aviutl2mcp.Ipc.Utf8.{
  not_utf8, out_of_range, lead, continuations, multibyte, character, validate_loop,
}
use aviutl2mcp.Ipc.Utf8.Scalars.{IsScalar, encode_scalar}

low_5 : (b : ℕ) → b < 256 → bit_and b 0x1f ≡ b % 32
unfolding all_below
low_5 = agree_on_bytes (λ b. bit_and b 0x1f) (λ b. b % 32) refl

low_4 : (b : ℕ) → b < 256 → bit_and b 0x0f ≡ b % 16
unfolding all_below
low_4 = agree_on_bytes (λ b. bit_and b 0x0f) (λ b. b % 16) refl

low_3 : (b : ℕ) → b < 256 → bit_and b 0x07 ≡ b % 8
unfolding all_below
low_3 = agree_on_bytes (λ b. bit_and b 0x07) (λ b. b % 8) refl

low_6 : (b : ℕ) → b < 256 → bit_and b 0x3f ≡ b % 64
unfolding all_below
low_6 = agree_on_bytes (λ b. bit_and b 0x3f) (λ b. b % 64) refl

top_2 : (b : ℕ) → b < 256 → bit_and b 0xc0 ≡ b / 64 * 64
unfolding all_below
top_2 = agree_on_bytes (λ b. bit_and b 0xc0) (λ b. b / 64 * 64) refl

-- One round of the loop over the continuation bytes, on a continuation byte and on another.
continuations_step :
    (count code next : ℕ) (bytes : Bytes)
    → code < 2 ^ 26
    → next < 256
    → next / 64 ≡ 2
    → continuations (suc count) code (next ∷ bytes)
      ≡ continuations count (code * 64 + next % 64) bytes
unfolding continuations
continuations_step count code next bytes small byte cont = ground (
  arith,
  top_2 next,
  low_6 next,
  mod-eq_of_lt {n = code * 64} {m = 2 ^ 32},
  shift-bit_or 6 (next % 64) code,
)

continuations_bad :
    (count code next : ℕ) (bytes : Bytes)
    → next < 256
    → next / 64 ≢ 2
    → continuations (suc count) code (next ∷ bytes) ≡ err not_utf8
unfolding continuations
continuations_bad count code next bytes byte bad = ground (arith, top_2 next)

lead_2 : (a : ℕ) → 0xc2 ≤ a → a ≤ 0xdf → lead a ≡ ok (a - 0xc0, 1, 0x80)
unfolding lead
lead_2 a lo hi = ground (arith, low_5 a)

lead_3 : (a : ℕ) → 0xe0 ≤ a → a ≤ 0xef → lead a ≡ ok (a - 0xe0, 2, 0x800)
unfolding lead
lead_3 a lo hi = ground (arith, low_4 a)

lead_4 : (a : ℕ) → 0xf0 ≤ a → a ≤ 0xf4 → lead a ≡ ok (a - 0xf0, 3, 0x10000)
unfolding lead
lead_4 a lo hi = ground (arith, low_3 a)

continuations_none : (code : ℕ) (bytes : Bytes) → continuations 0 code bytes ≡ ok (code, bytes)
unfolding continuations
continuations_none code bytes = refl

abbrev IsContinuation : ℕ → Type 0
IsContinuation b = b / 64 ≡ 2

-- Sequences of two, three and four bytes.
abbrev code_2 : ℕ → ℕ → ℕ
code_2 a b = (a - 0xc0) * 64 + b % 64

abbrev code_3 : ℕ → ℕ → ℕ → ℕ
code_3 a b c = ((a - 0xe0) * 64 + b % 64) * 64 + c % 64

abbrev code_4 : ℕ → ℕ → ℕ → ℕ → ℕ
code_4 a b c d = (((a - 0xf0) * 64 + b % 64) * 64 + c % 64) * 64 + d % 64

round_2 :
    (a b : ℕ) (rest : Bytes)
    → 0xc2 ≤ a
    → a ≤ 0xdf
    → b < 256
    → IsContinuation b
    → multibyte a (b ∷ rest) ≡ (throw_if (out_of_range (code_2 a b) 0x80) not_utf8 >> ok rest)
unfolding multibyte
round_2 a b rest lo hi byte cont =
    rw (lead_2 a lo hi)
      (ground (arith, continuations_step 0 (a - 0xc0) b rest, continuations_none (code_2 a b) rest))

round_3 :
    (a b c : ℕ) (rest : Bytes)
    → 0xe0 ≤ a
    → a ≤ 0xef
    → b < 256
    → c < 256
    → IsContinuation b
    → IsContinuation c
    → multibyte a (b ∷ c ∷ rest)
      ≡ (throw_if (out_of_range (code_3 a b c) 0x800) not_utf8 >> ok rest)
unfolding multibyte
round_3 a b c rest lo hi p q cb cd = rw (lead_3 a lo hi) (
    ground (
      arith,
      continuations_step 1 (a - 0xe0) b (c ∷ rest),
      continuations_step 0 ((a - 0xe0) * 64 + b % 64) c rest,
      continuations_none (code_3 a b c) rest,
    ))

round_4 :
    (a b c d : ℕ) (rest : Bytes)
    → 0xf0 ≤ a
    → a ≤ 0xf4
    → b < 256
    → c < 256
    → d < 256
    → IsContinuation b
    → IsContinuation c
    → IsContinuation d
    → multibyte a (b ∷ c ∷ d ∷ rest)
      ≡ (throw_if (out_of_range (code_4 a b c d) 0x10000) not_utf8 >> ok rest)
unfolding multibyte
round_4 a b c d rest lo hi p q r cb ce cd = rw (lead_4 a lo hi) (
    ground (
      arith,
      continuations_step 2 (a - 0xf0) b (c ∷ d ∷ rest),
      continuations_step 1 ((a - 0xf0) * 64 + b % 64) c (d ∷ rest),
      continuations_step 0 (((a - 0xf0) * 64 + b % 64) * 64 + c % 64) d rest,
      continuations_none (code_4 a b c d) rest,
    ))

-- A round that succeeds has read the encoding of a scalar value.
abbrev pub Reads : Bytes → Bytes → Type 0
Reads bytes rest = (c : ℕ) × IsScalar c × (bytes ≡ encode_scalar c ++ rest)

Reads-two :
    (a : ℕ) (bytes rest : Bytes)
    → 0xc2 ≤ a
    → a ≤ 0xdf
    → IsBytes bytes
    → multibyte a bytes ≡ ok rest
    → Reads (a ∷ bytes) rest
unfolding multibyte encode_scalar
Reads-two a [] rest lo hi byte h = absurd (ground (arith, lead_2 a lo hi))
Reads-two a (b ∷ bytes) rest lo hi byte h = elim (Bool-cases (b / 64 == 2)) [
  | inl cont ↦ (code_2 a b, ground arith, ground (arith, round_2 a b bytes))
  | inr bad ↦ absurd (ground (arith, lead_2 a lo hi, continuations_bad 0 (a - 0xc0) b bytes))
]

Reads-three :
    (a : ℕ) (bytes rest : Bytes)
    → 0xe0 ≤ a
    → a ≤ 0xef
    → IsBytes bytes
    → multibyte a bytes ≡ ok rest
    → Reads (a ∷ bytes) rest
unfolding multibyte encode_scalar
Reads-three a [] rest lo hi byte h = absurd (ground (arith, lead_3 a lo hi))
Reads-three a (b ∷ []) rest lo hi byte h = absurd (ground (arith, lead_3 a lo hi))
Reads-three a (b ∷ c ∷ bytes) rest lo hi byte h = elim (Bool-cases (b / 64 == 2 && c / 64 == 2)) [
  | inl cont ↦
      (code_3 a b c, ground (arith, round_3 a b c bytes), ground (arith, round_3 a b c bytes))
  | inr bad ↦ absurd (
      ground (
        arith,
        lead_3 a lo hi,
        continuations_bad 1 (a - 0xe0) b (c ∷ bytes),
        continuations_step 1 (a - 0xe0) b (c ∷ bytes),
        continuations_bad 0 ((a - 0xe0) * 64 + b % 64) c bytes,
      ))
]

Reads-four :
    (a : ℕ) (bytes rest : Bytes)
    → 0xf0 ≤ a
    → a ≤ 0xf4
    → IsBytes bytes
    → multibyte a bytes ≡ ok rest
    → Reads (a ∷ bytes) rest
unfolding multibyte encode_scalar
Reads-four a [] rest lo hi byte h = absurd (ground (arith, lead_4 a lo hi))
Reads-four a (b ∷ []) rest lo hi byte h = absurd (ground (arith, lead_4 a lo hi))
Reads-four a (b ∷ c ∷ []) rest lo hi byte h = absurd (ground (arith, lead_4 a lo hi))
Reads-four a (b ∷ c ∷ d ∷ bytes) rest lo hi byte h =
    elim (Bool-cases (b / 64 == 2 && (c / 64 == 2 && d / 64 == 2))) [
      | inl cont ↦ (
        code_4 a b c d,
        ground (arith, round_4 a b c d bytes),
        ground (arith, round_4 a b c d bytes),
      )
      | inr bad ↦ absurd (
          ground (
            arith,
            lead_4 a lo hi,
            continuations_bad 2 (a - 0xf0) b (c ∷ d ∷ bytes),
            continuations_step 2 (a - 0xf0) b (c ∷ d ∷ bytes),
            continuations_bad 1 ((a - 0xf0) * 64 + b % 64) c (d ∷ bytes),
            continuations_step 1 ((a - 0xf0) * 64 + b % 64) c (d ∷ bytes),
            continuations_bad 0 (((a - 0xf0) * 64 + b % 64) * 64 + c % 64) d bytes,
          ))
    ]

lead-err : (a : ℕ) → 0x7f < a → a < 0xc2 ⊎ 0xf4 < a → lead a ≡ err not_utf8
unfolding lead
lead-err a lo out = ground arith

lead_cases :
    (a : ℕ)
    → (a ≤ 0x7f)
      ⊎ ((0xc2 ≤ a) × (a ≤ 0xdf))
      ⊎ ((0xe0 ≤ a) × (a ≤ 0xef))
      ⊎ ((0xf0 ≤ a) × (a ≤ 0xf4))
      ⊎ ((0x7f < a) × (a < 0xc2 ⊎ 0xf4 < a))
lead_cases a = grind arith

pub character-Reads :
    (a : ℕ) (bytes rest : Bytes)
    → IsBytes (a ∷ bytes)
    → character a bytes ≡ ok rest
    → Reads (a ∷ bytes) rest
unfolding character
character-Reads a bytes rest byte h = elim (lead_cases a) [
  | inl ascii ↦ unfold encode_scalar in (a, ground arith, ground arith)
  | inr (inl two) ↦ Reads-two a bytes rest two.0 two.1 byte.1 (ground arith)
  | inr (inr (inl three)) ↦ Reads-three a bytes rest three.0 three.1 byte.1 (ground arith)
  | inr (inr (inr (inl four))) ↦ Reads-four a bytes rest four.0 four.1 byte.1 (ground arith)
  | inr (inr (inr (inr none))) ↦
      absurd (unfold multibyte in ground (arith, lead-err a none.0 none.1))
]

-- A round on an encoding of each length leaves what follows.
encoded_2 :
    (c : ℕ) (rest : Bytes)
    → 0x80 ≤ c
    → c < 0x800
    → character (0xc0 + c / 64) ((0x80 + c % 64) ∷ rest) ≡ ok rest
unfolding character
encoded_2 c rest lo hi =
    let e : code_2 (0xc0 + c / 64) (0x80 + c % 64) ≡ c = omega arith in
    ground (arith, e, round_2 (0xc0 + c / 64) (0x80 + c % 64) rest)

encoded_3 :
    (c : ℕ) (rest : Bytes)
    → 0x800 ≤ c
    → c < 0x10000
    → IsScalar c
    → character (0xe0 + c / 4096) ((0x80 + c / 64 % 64) ∷ (0x80 + c % 64) ∷ rest) ≡ ok rest
unfolding character
encoded_3 c rest lo hi s =
    let e : code_3 (0xe0 + c / 4096) (0x80 + c / 64 % 64) (0x80 + c % 64) ≡ c = omega arith in
    rw
      (
        round_3 (0xe0 + c / 4096) (0x80 + c / 64 % 64) (0x80 + c % 64) rest (omega arith)
            (omega arith) (omega arith) (omega arith) (omega arith) (omega arith),
        e,
      )
      (ground arith)

encoded_4 :
    (c : ℕ) (rest : Bytes)
    → 0x10000 ≤ c
    → c ≤ 0x10ffff
    → character
        (0xf0 + c / 262144)
        ((0x80 + c / 4096 % 64) ∷ (0x80 + c / 64 % 64) ∷ (0x80 + c % 64) ∷ rest)
      ≡ ok rest
unfolding character
encoded_4 c rest lo hi =
    let e : code_4 (0xf0 + c / 262144) (0x80 + c / 4096 % 64) (0x80 + c / 64 % 64) (0x80 + c % 64)
        ≡ c =
      omega arith in
    rw
      (
        round_4 (0xf0 + c / 262144) (0x80 + c / 4096 % 64) (0x80 + c / 64 % 64) (0x80 + c % 64) rest
            (omega arith) (omega arith) (omega arith) (omega arith) (omega arith) (omega arith)
            (omega arith) (omega arith),
        e,
      )
      (ground arith)

pub validate_loop-encode_scalar :
    (fuel c : ℕ) (rest : Bytes)
    → IsScalar c
    → validate_loop (suc fuel) (encode_scalar c ++ rest) ≡ validate_loop fuel rest
unfolding validate_loop encode_scalar
validate_loop-encode_scalar fuel c rest s = elim (Bool-cases (ltb c 0x80)) [
  | inl one ↦ rw one (unfold character in ground arith)
  | inr more ↦ elim (Bool-cases (ltb c 0x800)) [
    | inl two ↦ rw (more, two, encoded_2 c rest (ground arith) (ground arith))
    | inr more' ↦ elim (Bool-cases (ltb c 0x10000)) [
      | inl three ↦ rw (more, more', three, encoded_3 c rest (ground arith) (ground arith) s)
      | inr four ↦ rw (more, more', four, encoded_4 c rest (ground arith) s.0)
    ]
  ]
]
