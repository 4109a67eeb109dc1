-- ===== src/PsdCodecs/LuaStrings.antt =====
-- What `escape_lua_string` of psd_codecs.cpp writes is read back by a reader of Lua's strings.
use Prim.Native.Nat.{bit_and}
use aviutl2mcp.Common.{
  ℕ, zero, suc, ◌+◌, ◌-◌, ◌*◌, ◌/◌, ◌<◌, ◌≡◌, inl, inr, refl, true, ◌||◌, Option, none, some, [],
  ◌∷◌, ◌++◌, Bytes, IsBytes, ltb, ◌==◌, if◌then◌else◌, length, Bool-cases, arith,
}
use aviutl2mcp.Common.Bits.{agree_on_bytes, all_below}
use aviutl2mcp.Common.Hex.{hex_digit}
use aviutl2mcp.PsdCodecs.{escape_lua_string}

abbrev hex_value : ℕ → ℕ
hex_value digit = if ltb digit 58 then digit - 48 else digit - 87

-- The escapes of Lua that are used: the byte that stands behind a backslash, and what is left.
unfoldable pub unescape : Bytes → Option (ℕ × Bytes)
unescape (kind ∷ high ∷ low ∷ rest) =
    if kind == b'\\' || kind == b'"'
    then some (kind, high ∷ low ∷ rest)
    else if kind == b'x'
    then some (hex_value high * 16 + hex_value low, rest)
    else none
unescape (kind ∷ rest) = if kind == b'\\' || kind == b'"' then some (kind, rest) else none
unescape [] = none

abbrev push : ℕ → Option (Bytes × Bytes) → Option (Bytes × Bytes)
push byte none = none
push byte (some (value, rest)) = some (byte ∷ value, rest)

-- A string between double quotes, from behind the first: what it stands for, and what is behind the
-- second. A line break inside is an error. A unit of fuel is a byte of the string.
unfoldable pub lua_string : ℕ → Bytes → Option (Bytes × Bytes)
lua_string zero source = none
lua_string (suc fuel) [] = none
lua_string (suc fuel) (byte ∷ source) =
    let plain = push byte (lua_string fuel source) in
    let escaped : Option (Bytes × Bytes) = elim (unescape source) [
      | none ↦ none
      | some (meant, rest) ↦ push meant (lua_string fuel rest)
    ] in
    if byte == b'"'
    then some ([], source)
    else if byte == b'\\'
    then escaped
    else if byte == 0x0a || byte == 0x0d
    then none
    else plain

hex_pair :
    (b : ℕ)
    → b < 256
    → hex_value (hex_digit (bit_and (b / 16) 0x0f)) * 16 + hex_value (hex_digit (bit_and b 0x0f))
      ≡ b
unfolding all_below hex_digit
hex_pair =
    agree_on_bytes
      (λ b.
        hex_value (hex_digit (bit_and (b / 16) 0x0f)) * 16 + hex_value (hex_digit (bit_and b 0x0f)))
      (λ b. b) refl

unescape_quoted :
    (b : ℕ) (source : Bytes)
    → (b == b'\\' || b == b'"') ≡ true
    → unescape (b ∷ source) ≡ some (b, source)
unfolding unescape
unescape_quoted b [] h = rw h refl
unescape_quoted b (high ∷ []) h = rw h refl
unescape_quoted b (high ∷ low ∷ rest) h = rw h refl

-- Between double quotes an escaped value is read as the value, up to the quote that was put behind
-- it: no byte of a value ends the string or changes what the rest of the script means.
pub lua_string-escape_lua_string :
    (value rest : Bytes) (fuel : ℕ)
    → IsBytes value
    → length value < fuel
    → lua_string fuel (escape_lua_string value ++ (b'"' ∷ rest)) ≡ some (value, rest)
unfolding lua_string escape_lua_string unescape
lua_string-escape_lua_string [] rest zero bytes long = absurd (omega arith)
lua_string-escape_lua_string [] rest (suc fuel) bytes long = refl
lua_string-escape_lua_string (b ∷ value) rest zero bytes long = absurd (omega arith)
lua_string-escape_lua_string (b ∷ value) rest (suc fuel) bytes long =
    let later = lua_string-escape_lua_string value rest fuel bytes.1 (omega arith) in
    elim (Bool-cases (b == b'\\' || b == b'"')) [
      | inl quoted ↦
          rw (quoted, unescape_quoted b (escape_lua_string value ++ (b'"' ∷ rest)) quoted, later)
            refl
      | inr other ↦ elim (Bool-cases (ltb b 0x20 || b == 0x7f)) [
        | inl control ↦ rw (other, control, unescape, hex_pair b bytes.0, later) refl
        | inr plain ↦ ground (arith, other, plain, later)
      ]
    ]
