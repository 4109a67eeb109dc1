-- ===== src/PsdCodecs/Characters.antt =====
-- What `count_utf8_characters` counts, and which character ids psd_codecs.cpp accepts.
use Prim.Native.Nat.{bit_and}
use aviutl2mcp.Common.{
  ℕ, suc, ◌+◌, ◌*◌, ◌/◌, ◌%◌, ◌≤◌, ◌<◌, ◌≡◌, ◌↔◌, inl, inr, refl, ap, ◌∙◌, true, false, List, [],
  ◌∷◌, ◌++◌, Bytes, IsBytes, ltb, length, is_empty, All, Bool-cases, arith,
}
use aviutl2mcp.Common.Bits.{agree_on_bytes, all_below}
use aviutl2mcp.Ipc.Utf8.Scalars.{IsScalar, encode_scalar, encode_scalars}
use aviutl2mcp.Ipc.Utf8.Correctness.{validate_utf8_decides}
use aviutl2mcp.PsdCodecs.{
  count_utf8_characters, has_forbidden_line_character, is_valid_utf8, validate_psd_character_id,
}

high_bits : (b : ℕ) → b < 256 → bit_and b 0xc0 ≡ b / 64 * 64
unfolding all_below
high_bits = agree_on_bytes (λ b. bit_and b 0xc0) (λ b. b / 64 * 64) refl

count-encode_scalar :
    (c : ℕ) (rest : Bytes)
    → c ≤ 0x10ffff
    → count_utf8_characters (encode_scalar c ++ rest) ≡ suc (count_utf8_characters rest)
unfolding count_utf8_characters encode_scalar
count-encode_scalar c rest small = elim (Bool-cases (ltb c 0x80)) [
  | inl one ↦ ground (arith, one, high_bits c)
  | inr more ↦ elim (Bool-cases (ltb c 0x800)) [
    | inl two ↦ ground (arith, more, two, high_bits (0xc0 + c / 64), high_bits (0x80 + c % 64))
    | inr longer ↦ elim (Bool-cases (ltb c 0x10000)) [
      | inl three ↦ ground (
        arith,
        more,
        longer,
        three,
        high_bits (0xe0 + c / 4096),
        high_bits (0x80 + c / 64 % 64),
        high_bits (0x80 + c % 64),
      )
      | inr four ↦ ground (
        arith,
        more,
        longer,
        four,
        high_bits (0xf0 + c / 262144),
        high_bits (0x80 + c / 4096 % 64),
        high_bits (0x80 + c / 64 % 64),
        high_bits (0x80 + c % 64),
      )
    ]
  ]
]

-- The bytes that `count_utf8_characters` does not skip are as many as the characters of a text.
count-encode_scalars :
    (cs : List ℕ) → All IsScalar cs → count_utf8_characters (encode_scalars cs) ≡ length cs
unfolding count_utf8_characters encode_scalars
count-encode_scalars [] h = refl
count-encode_scalars (c ∷ cs) h =
    count-encode_scalar c (encode_scalars cs) h.0.0 ∙ ap suc (count-encode_scalars cs h.1)

-- A character id by its meaning: between 1 and 256 Unicode characters in UTF-8, on one line.
pub record IsCharacterId (value : Bytes) : Type 0 where
  pub characters : List ℕ
  pub scalars : All IsScalar characters
  pub encoded : value ≡ encode_scalars characters
  pub present : is_empty value ≡ false
  pub few : length characters ≤ 256
  pub one_line : has_forbidden_line_character value ≡ false

-- `validate_psd_character_id` accepts exactly the texts of 1 to 256 Unicode characters, in UTF-8,
-- without a NUL, a carriage return or a line feed.
pub validate_psd_character_id_iff :
    (value : Bytes)
    → IsBytes value
    → ((validate_psd_character_id value).is_ok ≡ true) ↔ IsCharacterId value
unfolding validate_psd_character_id is_valid_utf8
validate_psd_character_id_iff value byte = elim (validate_utf8_decides value byte) [
  | inl (valid, (cs, scalars, form)) ↦
      let counted : count_utf8_characters value ≡ length cs =
        ap count_utf8_characters form ∙ count-encode_scalars cs scalars in
      (
        λ h. record {
          characters = cs;
          scalars = scalars;
          encoded = form;
          present = ground (arith, valid);
          few = ground (arith, valid, counted);
          one_line = ground (arith, valid);
        },
        λ id.
            let meant : count_utf8_characters value ≡ length id.characters =
              ap count_utf8_characters id.encoded ∙ count-encode_scalars id.characters id.scalars in
            ground (arith, valid, meant),
      )
  | inr (invalid, no_text) ↦ (
    λ h. absurd (ground (arith, invalid)),
    λ id. absurd (no_text (id.characters, id.scalars, id.encoded)),
  )
]
