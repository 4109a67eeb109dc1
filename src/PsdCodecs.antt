-- ===== src/PsdCodecs.antt =====
-- AviUtl2MCP.Bridge/src/psd_codecs.cpp: the texts that the bridge writes into objects of the editor,
-- and the tests of what a client gives for them. The conversion from UTF-16 and the normal form of a
-- path come from Windows and from the C++ library, and what needs them is left out.
pub mod Characters
pub mod LuaStrings
pub mod VoiceText
use Prim.Native.Nat.{bit_and}
use Prim.Native.Char.{code}
use Prim.Native.String.{String}
use aviutl2mcp.Common.{
  ℕ, zero, suc, ◌+◌, ◌-◌, ◌*◌, ◌/◌, Bool, true, false, not, ◌&&◌, ◌||◌, Option, none, some, is_some,
  List, [], ◌∷◌, ◌++◌, Bytes, bytes_eq, ltb, ◌==◌, if◌then◌else◌, length, drop, take, is_empty,
  text, Result, ok, err, ◌>>=◌, ◌>>◌, throw_if, invalid_argument,
}
use mathlib.Core.Option
use aviutl2mcp.Common.Hex.{hex_digit}
use aviutl2mcp.Ipc.Utf8.{validate_utf8}
use aviutl2mcp.Ipc.Utf8.Scalars.{encode_scalar}
use aviutl2mcp.Revisions.{to_string}

-- `psd_value_validation`.
pub record ValueValidation : Type 0 where
  pub is_ok : Bool
  pub error_code : Bytes
  pub error_message : Bytes

abbrev pub maximum_layer_state_bytes : ℕ
maximum_layer_state_bytes = 65536

abbrev pub maximum_text_bytes : ℕ
maximum_text_bytes = 64 * 1024

abbrev validation_failure : Bytes → Bytes → ValueValidation
validation_failure code message = record {
  is_ok = false;
  error_code = code;
  error_message = message;
}

abbrev validation_success : ValueValidation
validation_success = record { is_ok = true; error_code = []; error_message = [] }

-- `value.find(byte) != npos`.
unfoldable pub contains : ℕ → Bytes → Bool
contains byte [] = false
contains byte (b ∷ value) = b == byte || contains byte value

unfoldable pub has_forbidden_line_character : Bytes → Bool
has_forbidden_line_character value =
    contains 0 value || (contains 0x0d value || contains 0x0a value)

unfoldable pub count_utf8_characters : Bytes → ℕ
count_utf8_characters [] = 0
count_utf8_characters (byte ∷ value) =
    let rest = count_utf8_characters value in if bit_and byte 0xc0 == 0x80 then rest else suc rest

-- All that `validate_utf8` throws is an `std::invalid_argument`.
unfoldable pub is_valid_utf8 : Bytes → Bool
is_valid_utf8 value = elim (validate_utf8 value) [ err thrown ↦ false | ok done ↦ true ]

unfoldable pub validate_psd_character_id : Bytes → ValueValidation
validate_psd_character_id value =
    if is_empty value || (has_forbidden_line_character value || not (is_valid_utf8 value))
    then validation_failure (text "invalid_argument")
        (text "characterId must be a non-empty single-line UTF-8 string")
    else if ltb 256 (count_utf8_characters value)
    then validation_failure (text "invalid_argument") (text "characterId exceeds 256 characters")
    else validation_success

unfoldable pub starts_with : Bytes → Bytes → Bool
starts_with [] value = true
starts_with (n ∷ needle) [] = false
starts_with (n ∷ needle) (b ∷ value) = b == n && starts_with needle value

-- `value.find(needle)`.
unfoldable pub find_text : Bytes → Bytes → Option ℕ
find_text needle [] = if is_empty needle then some 0 else none
find_text needle (b ∷ value) =
    let later = Option.map suc (find_text needle value) in
    if starts_with needle (b ∷ value) then some 0 else later

unfoldable pub validate_psd_layer_state : Bytes → ValueValidation
validate_psd_layer_state value =
    if is_empty value
      || (ltb maximum_layer_state_bytes (length value)
          || (has_forbidden_line_character value || not (is_valid_utf8 value)))
    then validation_failure (text "invalid_argument")
        (text "layerState must be a single-line UTF-8 value of at most 65536 bytes")
    else if not (bytes_eq value (text "L.0"))
        && (not (is_some (find_text (text "v0.") value))
            && not (is_some (find_text (text "v1.") value)))
    then validation_failure (text "invalid_argument")
        (text "layerState is not a canonical PSDToolKit2 state")
    else validation_success

-- The loop of `escape_voice_text`. Behind a carriage return a line feed is skipped.
unfoldable pub escape_lines : Bytes → Bytes
escape_lines [] = []
escape_lines (character ∷ []) =
    if character == 0x0d || character == 0x0a then b'\\' ∷ b'n' ∷ [] else character ∷ []
escape_lines (character ∷ next ∷ value) =
    let from_next = escape_lines (next ∷ value) in
    let behind_next = escape_lines value in
    if character == 0x0d
    then b'\\' ∷ b'n' ∷ (if next == 0x0a then behind_next else from_next)
    else if character == 0x0a
    then b'\\' ∷ b'n' ∷ from_next
    else character ∷ from_next

unfoldable pub escape_voice_text : Bytes → Result Bytes
escape_voice_text value = do
  throw_if
      (ltb maximum_text_bytes (length value) || (contains 0 value || not (is_valid_utf8 value)))
      (invalid_argument "voice text is invalid or exceeds 64 KiB")
  ok (escape_lines value)

unfoldable pub normalize_psd_voice_text : Bytes → Result Bytes
normalize_psd_voice_text value = escape_voice_text value

unfoldable pub escape_lua_string : Bytes → Bytes
escape_lua_string [] = []
escape_lua_string (byte ∷ value) =
    let rest = escape_lua_string value in
    if byte == b'\\' || byte == b'"'
    then b'\\' ∷ byte ∷ rest
    else if ltb byte 0x20 || byte == 0x7f
    then b'\\' ∷ b'x' ∷ hex_digit (bit_and (byte / 16) 0x0f) ∷ hex_digit (bit_and byte 0x0f) ∷ rest
    else byte ∷ rest

-- The loop of `count_occurrences`, on the text behind `offset`. Each round takes a byte at least.
unfoldable pub count_from : ℕ → Bytes → Bytes → ℕ
count_from zero needle value = 0
count_from (suc fuel) needle value = elim (find_text needle value) [
  | none ↦ 0
  | some at ↦ suc (count_from fuel needle (drop (at + length needle) value))
]

unfoldable pub count_occurrences : Bytes → Bytes → ℕ
count_occurrences value needle =
    let count = count_from (length value) needle value in if is_empty needle then 0 else count
