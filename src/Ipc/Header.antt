-- ===== src/Ipc/Header.antt =====
-- AviUtl2MCP.Bridge/src/ipc_header.cpp and include/aviutl2_mcp/ipc_header.h. The enums
-- `message_kind` and `frame_flags` are bytes: a cast makes any byte such a value, so both are
-- numbers, with the enumerators as constants. An array is the list of its elements.
use aviutl2mcp.Ipc.FrameFlags
use aviutl2mcp.Ipc.MessageKind
pub mod LittleEndian
pub mod Validity
pub mod RoundTrip
use Prim.Native.Nat.{bit_and, bit_or}
use aviutl2mcp.Common.{
  ℕ, zero, suc, ◌+◌, ◌*◌, ◌/◌, ◌%◌, ◌^◌, ◌≡◌, Bool, true, false, not, ◌&&◌, ◌||◌, List, [], ◌∷◌,
  ◌++◌, Bytes, ltb, ◌==◌, if◌then◌else◌, get_or, take, drop, Result, ok, err, ◌>>=◌, ◌>>◌, throw_if,
  invalid_argument, length_error,
}

-- `IPC_HEADER_BYTES`, `IPC_MAX_JSON_BYTES`, `IPC_MAX_BINARY_BYTES`.
abbrev pub ipc_header_bytes : ℕ
ipc_header_bytes = 40

abbrev pub ipc_max_json_bytes : ℕ
ipc_max_json_bytes = 8 * 1024 * 1024

abbrev pub ipc_max_binary_bytes : ℕ
ipc_max_binary_bytes = 16 * 1024 * 1024

pub record FrameHeader : Type 0 where
  pub kind : ℕ
  pub flags : ℕ
  pub request_id : Bytes
  pub json_length : ℕ
  pub binary_length : ℕ

-- `std::ranges::all_of(request_id, value == 0)`.
unfoldable pub all_zero : Bytes → Bool
all_zero [] = true
all_zero (b ∷ bs) = b == 0 && all_zero bs

-- `a != b` on Booleans.
abbrev pub differ : Bool → Bool → Bool
differ true b = not b
differ false b = b

-- `~KNOWN_FLAGS` as a byte is 0xf8.
unfoldable pub validate_header : FrameHeader → Result (Unit {0})
validate_header header = do
  throw_if (ltb header.kind MessageKind.client_hello || ltb MessageKind.close header.kind)
      (invalid_argument "message kind is unknown")
  throw_if (not (bit_and header.flags 0xf8 == 0))
      (invalid_argument "frame flags contain unknown bits")
  throw_if (all_zero header.request_id && not (header.kind == MessageKind.close))
      (invalid_argument "only close may use a zero request ID")
  throw_if
      (ltb ipc_max_json_bytes header.json_length || ltb ipc_max_binary_bytes header.binary_length)
      (length_error "frame payload exceeds the protocol limit")
  throw_if
      (differ (not (bit_and header.flags FrameFlags.has_binary == 0)) (ltb 0 header.binary_length))
      (invalid_argument "binary length and flag do not match")

-- The bytes that the loops of `write_uint32_le` and `write_uint64_le` store, from `index` on.
unfoldable pub write_le : ℕ → ℕ → ℕ → Bytes
write_le zero index value = []
write_le (suc rounds) index value =
    value / 2 ^ (index * 8) % 256 ∷ write_le rounds (suc index) value

unfoldable pub write_uint32_le : ℕ → Bytes
unfolding write_le
write_uint32_le value = write_le 4 0 value

unfoldable pub write_uint64_le : ℕ → Bytes
unfolding write_le
write_uint64_le value = write_le 8 0 value

-- The array after every store: the offsets 0, 12, 28 and 32 are those of the four parts, and
-- `request_id` has 16 elements.
unfoldable pub encode_header : FrameHeader → Result Bytes
encode_header header = do
  validate_header header
  ok (
      (0x41 ∷ 0x32 ∷ 0x4d ∷ 0x50 ∷ ipc_header_bytes ∷ 0 ∷ 1 ∷ 0 ∷ header.kind ∷ header.flags ∷ 0 ∷ 0
        ∷ [])
      ++ (header.request_id
          ++ (write_uint32_le header.json_length ++ write_uint64_le header.binary_length)))

-- The loops `value |= static_cast<uintN_t>(bytes[offset + index]) << (index * 8)` of
-- `decode_header`, where N is `width`.
unfoldable pub read_le : (width rounds index : ℕ) → Bytes → (offset acc : ℕ) → ℕ
read_le width zero index bytes offset acc = acc
read_le width (suc rounds) index bytes offset acc =
    read_le width rounds (suc index) bytes offset
      (bit_or acc (get_or bytes (offset + index) 0 * 2 ^ (index * 8) % 2 ^ width))

unfoldable pub read_uint32_le : Bytes → ℕ → ℕ
unfolding read_le
read_uint32_le bytes offset = read_le 32 4 0 bytes offset 0

unfoldable pub read_uint64_le : Bytes → ℕ → ℕ
unfolding read_le
read_uint64_le bytes offset = read_le 64 8 0 bytes offset 0

-- The header that `decode_header` builds before it validates it.
unfoldable pub parse_header : Bytes → FrameHeader
parse_header bytes = record {
  kind = get_or bytes 8 0;
  flags = get_or bytes 9 0;
  request_id = take 16 (drop 12 bytes);
  json_length = read_uint32_le bytes 28;
  binary_length = read_uint64_le bytes 32;
}

-- `bytes[index] != value`
abbrev differs : Bytes → ℕ → ℕ → Bool
differs bytes index value = not (get_or bytes index 0 == value)

-- The argument is a span of exactly `ipc_header_bytes` elements.
unfoldable pub decode_header : Bytes → Result FrameHeader
decode_header bytes = do
  throw_if
      (differs bytes 0 0x41 || differs bytes 1 0x32 || differs bytes 2 0x4d || differs bytes 3 0x50)
      (invalid_argument "IPC header magic is invalid")
  throw_if (differs bytes 4 ipc_header_bytes || differs bytes 5 0)
      (invalid_argument "IPC header size is unsupported")
  throw_if (differs bytes 6 1 || differs bytes 7 0)
      (invalid_argument "IPC protocol version is unsupported")
  throw_if (differs bytes 10 0 || differs bytes 11 0)
      (invalid_argument "IPC reserved header bytes must be zero")
  validate_header (parse_header bytes)
  ok (parse_header bytes)
