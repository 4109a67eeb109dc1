-- ===== src/Batch/Values.antt =====
-- The values of effect items in AviUtl2MCP.Bridge/src/sdk_read_facade.cpp:
-- `normalize_effect_item_value` and `encode_effect_item_value`.
use aviutl2mcp.Common.{
  ℕ, suc, ◌*◌, ◌==◌, Bool, true, false, not, ◌||◌, Option, none, some, [], ◌∷◌, Bytes, bytes_eq,
  text, if◌then◌else◌, length, ltb, Result, ok, err, ◌>>◌, throw_if, invalid_argument,
}
use aviutl2mcp.Common.Ints.{ℤ, pos, negsuc, int_eq}
use aviutl2mcp.Revisions.{to_string}
use aviutl2mcp.Batch.{ItemValue, of_bool, of_integer, of_number, of_string, EffectItem}

-- What the code uses of `double`: `std::isfinite`, the conversion of an integer, `==`, and
-- `std::to_chars`, which fails where the text is longer than its 64 characters.
pub record Floating (F : Type 0) : Type 0 where
  pub is_finite : F → Bool
  pub of_int64 : ℤ → F
  pub equals : F → F → Bool
  pub to_chars : F → Option Bytes

-- `MAXIMUM_EXACT_DOUBLE_INTEGER`, and its negative less one.
abbrev maximum_exact_integer : ℕ
maximum_exact_integer = 9007199254740991

-- `MAXIMUM_EFFECT_ITEM_VALUE_BYTES`.
abbrev pub maximum_value_bytes : ℕ
maximum_value_bytes = 64 * 1024

unfoldable pub is_exact : ℤ → Bool
is_exact (pos n) = not (ltb maximum_exact_integer n)
is_exact (negsuc n) = ltb n maximum_exact_integer

-- `std::to_string` of a signed number.
unfoldable pub int_to_string : ℤ → Bytes
int_to_string (pos n) = to_string n
int_to_string (negsuc n) = b'-' ∷ to_string (suc n)

unfoldable pub has_nul : Bytes → Bool
has_nul [] = false
has_nul (byte ∷ bytes) = byte == 0 || has_nul bytes

module _ {F : Type 0} (floating : Floating F) where
  unfoldable pub normalize_number : ItemValue F → Result (ItemValue F)
  unfolding is_exact
  normalize_number (of_number number) = do
    throw_if (not (floating.is_finite number))
        (invalid_argument "The effect item requires a finite number value")
    ok (of_number number)
  normalize_number (of_integer integer) = do
    throw_if (not (is_exact integer))
        (invalid_argument "The effect item integer cannot be represented exactly as a number")
    ok (of_number (floating.of_int64 integer))
  normalize_number (of_bool checked) =
      err (invalid_argument "The effect item requires a finite number value")
  normalize_number (of_string value) =
      err (invalid_argument "The effect item requires a finite number value")

  unfoldable pub normalize_effect_item_value : EffectItem F → ItemValue F → Result (ItemValue F)
  unfolding normalize_number
  normalize_effect_item_value item value =
      if bytes_eq item.codec (text "number") then normalize_number value else ok value

  unfoldable pub encode_integer : ItemValue F → Result Bytes
  encode_integer (of_integer integer) = ok (int_to_string integer)
  encode_integer _ = err (invalid_argument "The effect item requires an integer value")

  unfoldable pub encode_number : ItemValue F → Result Bytes
  encode_number (of_number number) = do
    throw_if (not (floating.is_finite number))
        (invalid_argument "The effect item requires a finite number value")
    elim (floating.to_chars number) as (λ c. Result Bytes) [
      | none ↦ err (invalid_argument "The effect item number could not be encoded")
      | some chars ↦ ok chars
    ]
  encode_number _ = err (invalid_argument "The effect item requires a finite number value")

  unfoldable pub encode_check : ItemValue F → Result Bytes
  encode_check (of_bool true) = ok (b'1' ∷ [])
  encode_check (of_bool false) = ok (b'0' ∷ [])
  encode_check _ = err (invalid_argument "The effect item requires a boolean value")

  unfoldable pub encode_string : ItemValue F → Result Bytes
  encode_string (of_string value) = do
    throw_if (has_nul value || ltb maximum_value_bytes (length value))
        (invalid_argument "The effect item requires a bounded string value")
    ok value
  encode_string _ = err (invalid_argument "The effect item requires a bounded string value")

  unfoldable pub encode_effect_item_value : EffectItem F → ItemValue F → Result Bytes
  unfolding encode_integer encode_number encode_check encode_string
  encode_effect_item_value item value =
      if not item.is_writable || bytes_eq item.codec (text "unsupported")
      then err (invalid_argument "The selected effect item codec is read-only")
      else if bytes_eq item.codec (text "integer")
      then encode_integer value
      else if bytes_eq item.codec (text "number")
      then encode_number value
      else if bytes_eq item.codec (text "check01")
      then encode_check value
      else if bytes_eq item.codec (text "aliasString")
      then encode_string value
      else err (invalid_argument "The selected effect item codec is unsupported")

  -- `==` of two values.
  unfoldable pub value_eq : ItemValue F → ItemValue F → Bool
  value_eq (of_bool true) (of_bool b) = b
  value_eq (of_bool false) (of_bool b) = not b
  value_eq (of_integer a) (of_integer b) = int_eq a b
  value_eq (of_number a) (of_number b) = floating.equals a b
  value_eq (of_string a) (of_string b) = bytes_eq a b
  value_eq _ _ = false
