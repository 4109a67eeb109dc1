-- ===== src/Ipc/Frame.antt =====
-- `calculate_payload_hash`, `calculate_sha256`, `read_frame` and `write_frame` of
-- AviUtl2MCP.Bridge/src/native_ipc_frame_codec.cpp. SHA-256 comes from Windows (BCrypt), so it is a
-- parameter, a function of the bytes hashed; that a call of BCrypt fails is left out.
pub mod RoundTrip
pub mod Preimage
use aviutl2mcp.Common.{
  ℕ, ◌-◌, ◌^◌, Bool, true, false, not, ◌||◌, List, [], ◌∷◌, ◌++◌, Bytes, ltb, ◌==◌, length,
  Exception, Result, ok, err, ◌>>=◌, ◌>>◌, throw_if, invalid_argument, length_error,
}
use aviutl2mcp.Ipc.Header.{
  FrameHeader, ipc_header_bytes, encode_header, decode_header, write_uint32_le, write_uint64_le,
}
use aviutl2mcp.Ipc.Utf8.{validate_utf8}
use aviutl2mcp.Ipc.Stream.{ByteTransport, read_exact, write_all}

pub record IpcFrame : Type 0 where
  pub header : FrameHeader
  pub json : Bytes
  pub binary : Bytes
  pub payload_hash : Bytes

-- `append_hash` over the chunks: the bytes that are hashed.
unfoldable pub append_chunks : List Bytes → Result Bytes
append_chunks [] = ok []
append_chunks (chunk ∷ chunks) = do
  throw_if (ltb (2 ^ 32 - 1) (length chunk)) (length_error "hash input is too large")
  rest ← append_chunks chunks
  ok (chunk ++ rest)

-- The length tests that `calculate_payload_hash` and `write_frame` begin with.
unfoldable pub check_lengths : FrameHeader → Bytes → Bytes → Result (Unit {0})
check_lengths header json binary =
    throw_if
      (not (header.json_length == length json) || not (header.binary_length == length binary))
      (invalid_argument "IPC header lengths do not match the frame body")

module _ (sha256 : Bytes → Bytes) where
  unfoldable pub calculate_hash : List Bytes → Result Bytes
  calculate_hash chunks = do bytes ← append_chunks chunks; ok (sha256 bytes)

  unfoldable pub calculate_sha256 : Bytes → Result Bytes
  calculate_sha256 bytes = calculate_hash (bytes ∷ [])

  -- `prefix` holds a version byte, the flags and the length of the JSON part.
  unfoldable pub calculate_payload_hash : FrameHeader → Bytes → Bytes → Result Bytes
  calculate_payload_hash header json binary = do
    check_lengths header json binary
    calculate_hash (
        (1 ∷ header.flags ∷ write_uint32_le header.json_length)
        ∷ json
        ∷ write_uint64_le header.binary_length
        ∷ binary
        ∷ [])

  unfoldable pub read_frame :
      (transport : ByteTransport) → transport.State → Result (IpcFrame × transport.State)
  read_frame transport state = do
    (header_bytes, after_header) ← read_exact transport state ipc_header_bytes true
    header ← decode_header header_bytes
    (json, after_json) ← read_exact transport after_header header.json_length false
    (binary, after_binary) ← read_exact transport after_json header.binary_length false
    validate_utf8 json
    payload_hash ← calculate_payload_hash header json binary
    ok (
      record { header = header; json = json; binary = binary; payload_hash = payload_hash },
      after_binary,
    )

unfoldable pub write_frame :
    (transport : ByteTransport) → transport.State → IpcFrame → Result transport.State
write_frame transport state frame = do
  check_lengths frame.header frame.json frame.binary
  validate_utf8 frame.json
  header_bytes ← encode_header frame.header
  after_header ← write_all transport state header_bytes
  after_json ← write_all transport after_header frame.json
  write_all transport after_json frame.binary
