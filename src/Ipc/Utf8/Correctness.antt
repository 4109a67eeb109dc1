-- ===== src/Ipc/Utf8/Correctness.antt =====
-- `validate_utf8` decides UTF-8, and its only exception is the one about the text.
use Prim.Native.Nat.{bit_and, bit_or}
use aviutl2mcp.Common.{
  ℕ, zero, suc, ◌≤◌, ◌≡◌, ◌⊎◌, inl, inr, refl, ap, ◌∙◌, subst, List, [], ◌∷◌, ◌++◌, Bytes, IsBytes,
  length, length-append, All, ok, err, arith, Result, >>=-eq-ok, ltb, Bool-cases, leb, ◌&&◌, ◌==◌,
  ◌*◌, ◌%◌, ◌^◌,
}
use aviutl2mcp.Ipc.Utf8.{
  not_utf8, out_of_range, lead, continuations, multibyte, character, validate_loop, validate_utf8,
}
use aviutl2mcp.Ipc.Utf8.Scalars.{IsScalar, encode_scalar, encode_scalars, IsUtf8}
use aviutl2mcp.Ipc.Utf8.Rounds.{character-Reads, validate_loop-encode_scalar}

length-encode_scalar : (c : ℕ) → 1 ≤ length (encode_scalar c)
unfolding encode_scalar
length-encode_scalar c = ground arith

IsBytes-suffix : (front rest : Bytes) → IsBytes (front ++ rest) → IsBytes rest
IsBytes-suffix [] rest h = h
IsBytes-suffix (b ∷ front) rest h = IsBytes-suffix front rest h.1

validate_loop-IsUtf8 :
    (fuel : ℕ) (bytes : Bytes) → IsBytes bytes → validate_loop fuel bytes ≡ ok tt → IsUtf8 bytes
unfolding validate_loop encode_scalars
validate_loop-IsUtf8 fuel [] byte h = ([], tt, refl)
validate_loop-IsUtf8 zero (a ∷ bytes) byte h = absurd (ground arith)
validate_loop-IsUtf8 (suc fuel) (a ∷ bytes) byte h =
    let (rest, e, h') = >>=-eq-ok (character a bytes) (validate_loop fuel) h in
    let (c, scalar, front) = character-Reads a bytes rest byte e in
    let (cs, scalars, back) =
      validate_loop-IsUtf8 fuel rest
        (IsBytes-suffix (encode_scalar c) rest (subst IsBytes front byte)) h' in
    (c ∷ cs, (scalar, scalars), front ∙ ap (◌++◌ (encode_scalar c)) back)

IsUtf8-validate_loop :
    (cs : List ℕ) (fuel : ℕ)
    → All IsScalar cs
    → length (encode_scalars cs) ≤ fuel
    → validate_loop fuel (encode_scalars cs) ≡ ok tt
unfolding encode_scalars
IsUtf8-validate_loop [] fuel s h = unfold validate_loop in refl
IsUtf8-validate_loop (c ∷ cs) zero s h =
    absurd (
      omega (arith, h, length-append (encode_scalar c) (encode_scalars cs), length-encode_scalar c))
IsUtf8-validate_loop (c ∷ cs) (suc fuel) s h =
    validate_loop-encode_scalar fuel c (encode_scalars cs) s.0
    ∙ IsUtf8-validate_loop cs fuel s.1 (
        omega
          (arith, h, length-append (encode_scalar c) (encode_scalars cs), length-encode_scalar c))

-- What a part of the loop may answer: a rest that is no longer than the input, or the exception.
abbrev Consumes : Bytes → Result Bytes → Type 0
Consumes bytes r =
    ((rest : Bytes) × (r ≡ ok rest) × (length rest ≤ length bytes)) ⊎ (r ≡ err not_utf8)

continuations-Consumes :
    (count code : ℕ) (bytes : Bytes)
    → count ≤ length bytes
    → ((r : ℕ × Bytes) × (continuations count code bytes ≡ ok r) × (length r.1 ≤ length bytes))
      ⊎ (continuations count code bytes ≡ err not_utf8)
unfolding continuations
continuations-Consumes zero code bytes h = inl ((code, bytes), refl, omega arith)
continuations-Consumes (suc count) code [] h = absurd (omega arith)
continuations-Consumes (suc count) code (next ∷ bytes) h =
    elim (Bool-cases (bit_and next 0xc0 == 0x80)) [
      | inr bad ↦ inr (rw bad)
      | inl good ↦
          elim (continuations-Consumes count (bit_or (code * 2 ^ 6 % 2 ^ 32) (bit_and next 0x3f))
            bytes (omega arith)) [
              | inl (r, e, short) ↦ inl (r, rw good e, omega arith)
              | inr e ↦ inr (rw good e)
            ]
    ]

lead-total : (a : ℕ) → ((t : ℕ × ℕ × ℕ) × (lead a ≡ ok t)) ⊎ (lead a ≡ err not_utf8)
unfolding lead
lead-total a = elim (Bool-cases (leb 0xc2 a && leb a 0xdf)) [
  | inl two ↦ inl ((bit_and a 0x1f, 1, 0x80), rw two)
  | inr n2 ↦ elim (Bool-cases (leb 0xe0 a && leb a 0xef)) [
    | inl three ↦ inl ((bit_and a 0x0f, 2, 0x800), rw (n2, three))
    | inr n3 ↦ elim (Bool-cases (leb 0xf0 a && leb a 0xf4)) [
      | inl four ↦ inl ((bit_and a 0x07, 3, 0x10000), rw (n2, n3, four))
      | inr n4 ↦ inr (rw (n2, n3, n4))
    ]
  ]
]

multibyte-Consumes : (a : ℕ) (bytes : Bytes) → Consumes bytes (multibyte a bytes)
unfolding multibyte
multibyte-Consumes a bytes = elim (lead-total a) [
  | inr e ↦ inr (rw e)
  | inl (t, e) ↦ elim (Bool-cases (ltb (length bytes) t.1)) [
    | inl short ↦ inr (rw (e, short))
    | inr long ↦ elim (continuations-Consumes t.1 t.0 bytes (ground arith)) [
      | inr bad ↦ inr (rw (e, long, bad))
      | inl (r, good, less) ↦ elim (Bool-cases (out_of_range r.0 t.2)) [
        | inl out ↦ inr (rw (e, long, good, out))
        | inr fits ↦ inl (r.1, rw (e, long, good, fits), less)
      ]
    ]
  ]
]

character-Consumes : (a : ℕ) (bytes : Bytes) → Consumes bytes (character a bytes)
unfolding character
character-Consumes a bytes = elim (Bool-cases (leb a 0x7f)) [
  | inl ascii ↦ inl (bytes, rw ascii, omega arith)
  | inr other ↦ rw other (multibyte-Consumes a bytes)
]

validate_loop-total :
    (fuel : ℕ) (bytes : Bytes)
    → length bytes ≤ fuel
    → (validate_loop fuel bytes ≡ ok tt) ⊎ (validate_loop fuel bytes ≡ err not_utf8)
unfolding validate_loop
validate_loop-total fuel [] h = inl refl
validate_loop-total zero (a ∷ bytes) h = absurd (omega arith)
validate_loop-total (suc fuel) (a ∷ bytes) h = elim (character-Consumes a bytes) [
  | inr e ↦ inr (rw e)
  | inl (rest, e, less) ↦ rw e (validate_loop-total fuel rest (omega arith))
]

-- On any bytes the loop ends within its fuel: it accepts exactly those that are the encodings of
-- Unicode scalar values, and throws `invalid_argument` on all others.
pub validate_utf8_decides :
    (bytes : Bytes)
    → IsBytes bytes
    → ((validate_utf8 bytes ≡ ok tt) × IsUtf8 bytes)
      ⊎ ((validate_utf8 bytes ≡ err not_utf8) × ¬ IsUtf8 bytes)
unfolding validate_utf8
validate_utf8_decides bytes byte = elim (validate_loop-total (length bytes) bytes (omega arith)) [
  | inl e ↦ inl (e, validate_loop-IsUtf8 (length bytes) bytes byte e)
  | inr e ↦ inr (
    e,
    λ (cs, scalars, form).
        let accepted : validate_loop (length bytes) bytes ≡ ok tt =
          rw form (IsUtf8-validate_loop cs (length (encode_scalars cs)) scalars (omega arith)) in
        cc,
  )
]
