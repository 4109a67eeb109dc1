-- ===== src/Ipc/Utf8.antt =====
-- `validate_utf8` of AviUtl2MCP.Bridge/src/native_ipc_frame_codec.cpp. The bytes from `index` on
-- are a list; the loop takes fuel, and `logic_error` stands for what the loop never does: it runs
-- out of fuel, or reads behind the end.
pub mod Scalars
pub mod Rounds
pub mod Correctness
use Prim.Native.Nat.{bit_and, bit_or}
use aviutl2mcp.Common.{
  ℕ, zero, suc, ◌+◌, ◌*◌, ◌%◌, ◌^◌, Bool, not, ◌&&◌, ◌||◌, Option, none, some, List, [], ◌∷◌, Bytes,
  ltb, leb, ◌==◌, if◌then◌else◌, length, Exception, Result, ok, err, ◌>>=◌, ◌>>◌, throw_if,
  invalid_argument, logic_error,
}

abbrev pub not_utf8 : Exception
not_utf8 = invalid_argument "IPC JSON payload is not valid UTF-8"

-- `code_point`, `continuation_count` and `minimum` for a first byte above 0x7f.
unfoldable pub lead : ℕ → Result (ℕ × ℕ × ℕ)
lead first =
    if leb 0xc2 first && leb first 0xdf
    then ok (bit_and first 0x1f, 1, 0x80)
    else if leb 0xe0 first && leb first 0xef
    then ok (bit_and first 0x0f, 2, 0x800)
    else if leb 0xf0 first && leb first 0xf4
    then ok (bit_and first 0x07, 3, 0x10000)
    else err not_utf8

-- The loop over the continuation bytes.
unfoldable pub continuations : ℕ → ℕ → Bytes → Result (ℕ × Bytes)
continuations zero code_point bytes = ok (code_point, bytes)
continuations (suc count) code_point [] = err (logic_error "read behind the end")
continuations (suc count) code_point (next ∷ bytes) =
    let rest =
      continuations count (bit_or (code_point * 2 ^ 6 % 2 ^ 32) (bit_and next 0x3f)) bytes in
    if bit_and next 0xc0 == 0x80 then rest else err not_utf8

-- The last test of the loop's body.
abbrev pub out_of_range : ℕ → ℕ → Bool
out_of_range code minimum =
    ltb code minimum || ltb 0x10ffff code || (leb 0xd800 code && leb code 0xdfff)

-- The body of the loop behind the test for ASCII.
unfoldable pub multibyte : ℕ → Bytes → Result Bytes
multibyte first bytes = do
  (code_point, continuation_count, minimum) ← lead first
  throw_if (ltb (length bytes) continuation_count) not_utf8
  (code, rest) ← continuations continuation_count code_point bytes
  throw_if (out_of_range code minimum) not_utf8
  ok rest

-- One round of the loop: the bytes that it leaves.
unfoldable pub character : ℕ → Bytes → Result Bytes
character first bytes = if leb first 0x7f then ok bytes else multibyte first bytes

unfoldable pub validate_loop : ℕ → Bytes → Result (Unit {0})
validate_loop fuel [] = ok tt
validate_loop zero (first ∷ bytes) = err (logic_error "out of fuel")
validate_loop (suc fuel) (first ∷ bytes) = character first bytes >>= validate_loop fuel

unfoldable pub validate_utf8 : Bytes → Result (Unit {0})
validate_utf8 bytes = validate_loop (length bytes) bytes
