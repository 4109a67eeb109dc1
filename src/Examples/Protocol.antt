-- ===== src/Examples/Protocol.antt =====
-- Frames, headers and texts on the wire of AviUtl2MCP.Bridge/src/native_ipc_frame_codec.cpp.
use aviutl2mcp.Common.{◌≡◌, ◌↔◌, ◌⊎◌, refl, true, [], ◌∷◌, ◌++◌, Bytes, drop, ok, err, arith}
use aviutl2mcp.Ipc.Header.{
  FrameHeader, all_zero, validate_header, encode_header, decode_header, write_le, write_uint32_le,
  write_uint64_le, read_le, read_uint32_le, read_uint64_le, parse_header,
}
use aviutl2mcp.Ipc.Header.Validity.{IsValid, validate_header_iff}
use aviutl2mcp.Ipc.Header.RoundTrip.{Fits, decode_header-encode_header, encode_header-decode_header}
use aviutl2mcp.Ipc.Utf8.{validate_utf8, validate_loop, character, not_utf8}
use aviutl2mcp.Ipc.Utf8.Scalars.{IsUtf8}
use aviutl2mcp.Ipc.Utf8.Correctness.{validate_utf8_decides}
use aviutl2mcp.Ipc.Stream.{read_exact, write_all, write_loop, ended_early}
use aviutl2mcp.Ipc.Stream.Exact.{read_exact-take, read_exact-short, write_all-append}
use aviutl2mcp.Ipc.Frame.{
  IpcFrame, read_frame, write_frame, check_lengths, append_chunks, calculate_hash,
  calculate_payload_hash,
}
use aviutl2mcp.Ipc.Frame.RoundTrip.{preimage, read_frame-write_frame}
use aviutl2mcp.Ipc.Frame.Preimage.{calculate_payload_hash-injective}
use aviutl2mcp.Examples.Pipes.{Pipe, pipe_transport, pipe-IsStream}

abbrev some_id : Bytes
some_id = 1 ∷ 2 ∷ 3 ∷ 4 ∷ 5 ∷ 6 ∷ 7 ∷ 8 ∷ 9 ∷ 10 ∷ 11 ∷ 12 ∷ 13 ∷ 14 ∷ 15 ∷ 16 ∷ []

-- A request with the JSON text `{}` and three bytes behind it.
abbrev a_header : FrameHeader
a_header = record { kind = 3; flags = 1; request_id = some_id; json_length = 2; binary_length = 3 }

abbrev a_frame : IpcFrame
a_frame = record {
  header = a_header;
  json = b'{' ∷ b'}' ∷ [];
  binary = 0 ∷ 255 ∷ 7 ∷ [];
  payload_hash = [];
}

abbrev header_wire : Bytes
header_wire =
    0x41
    ∷ 0x32
    ∷ 0x4d
    ∷ 0x50
    ∷ 40
    ∷ 0
    ∷ 1
    ∷ 0
    ∷ 3
    ∷ 1
    ∷ 0
    ∷ 0
    ∷ (some_id ++ (2 ∷ 0 ∷ 0 ∷ 0 ∷ 3 ∷ 0 ∷ 0 ∷ 0 ∷ 0 ∷ 0 ∷ 0 ∷ 0 ∷ []))

header-Fits : Fits a_header
header-Fits = record {
  kind_byte = omega arith;
  flags_byte = omega arith;
  id_length = refl;
  id_bytes = ground arith;
  json_word = omega arith;
  binary_word = omega arith;
}

header-encoded : encode_header a_header ≡ ok header_wire
unfolding encode_header validate_header all_zero write_le write_uint32_le write_uint64_le
header-encoded = refl

header-decoded : decode_header header_wire ≡ ok a_header
unfolding decode_header parse_header validate_header all_zero read_le read_uint32_le read_uint64_le
header-decoded = refl

decode_header-encode_header_example : decode_header header_wire ≡ ok a_header
decode_header-encode_header_example =
    decode_header-encode_header a_header header_wire header-Fits header-encoded

encode_header-decode_header_example : encode_header a_header ≡ ok header_wire
encode_header-decode_header_example =
    encode_header-decode_header header_wire a_header refl (ground arith) header-decoded

validate_header_iff_example : (validate_header a_header ≡ ok tt) ↔ IsValid a_header
validate_header_iff_example = validate_header_iff a_header (omega arith)

-- The letter あ, then a surrogate, which UTF-8 does not have.
validate_utf8_decides_example :
    ((validate_utf8 (0xe3 ∷ 0x81 ∷ 0x82 ∷ 0xed ∷ 0xa0 ∷ 0x80 ∷ []) ≡ ok tt)
      × IsUtf8 (0xe3 ∷ 0x81 ∷ 0x82 ∷ 0xed ∷ 0xa0 ∷ 0x80 ∷ []))
    ⊎ ((validate_utf8 (0xe3 ∷ 0x81 ∷ 0x82 ∷ 0xed ∷ 0xa0 ∷ 0x80 ∷ []) ≡ err not_utf8)
        × ¬ IsUtf8 (0xe3 ∷ 0x81 ∷ 0x82 ∷ 0xed ∷ 0xa0 ∷ 0x80 ∷ []))
validate_utf8_decides_example =
    validate_utf8_decides (0xe3 ∷ 0x81 ∷ 0x82 ∷ 0xed ∷ 0xa0 ∷ 0x80 ∷ []) (ground arith)

abbrev three_bytes : Pipe
three_bytes = (1 ∷ 2 ∷ 3 ∷ [], 9 ∷ [])

read_exact-take_example :
    (pipe : Pipe) × (read_exact pipe_transport three_bytes 2 true ≡ ok (1 ∷ 2 ∷ [], pipe))
    × (pipe.0 ≡ 3 ∷ [])
read_exact-take_example =
    read_exact-take pipe_transport pipe-IsStream three_bytes 2 true (omega arith)

read_exact-short_example : read_exact pipe_transport three_bytes 4 true ≡ err ended_early
read_exact-short_example =
    read_exact-short pipe_transport pipe-IsStream three_bytes 4 true (omega arith)

write_all-append_example :
    (pipe : Pipe) × (write_all pipe_transport three_bytes (5 ∷ 6 ∷ []) ≡ ok pipe)
    × (pipe.1 ≡ 9 ∷ 5 ∷ 6 ∷ [])
write_all-append_example = write_all-append pipe_transport pipe-IsStream three_bytes (5 ∷ 6 ∷ [])

abbrev written : Pipe
written = ([], 9 ∷ (header_wire ++ (b'{' ∷ b'}' ∷ 0 ∷ 255 ∷ 7 ∷ [])))

abbrev received : Pipe
received = (header_wire ++ (b'{' ∷ b'}' ∷ 0 ∷ 255 ∷ 7 ∷ 8 ∷ []), [])

frame-written : write_frame pipe_transport (([], 9 ∷ [])) a_frame ≡ ok written
unfolding write_frame check_lengths validate_utf8 validate_loop character encode_header
    validate_header all_zero write_le write_uint32_le write_uint64_le write_all write_loop
frame-written = refl

read_frame-write_frame_example :
    (written.1 ≡ 9 ∷ drop 1 written.1)
    × (pipe : Pipe) × (read_frame (λ bytes. bytes) pipe_transport received
        ≡ ok (
          record a_frame { payload_hash = preimage a_header (b'{' ∷ b'}' ∷ []) (0 ∷ 255 ∷ 7 ∷ []) },
          pipe,
        ))
    × (pipe.0 ≡ 8 ∷ [])
read_frame-write_frame_example =
    read_frame-write_frame (λ bytes. bytes) pipe_transport pipe_transport pipe-IsStream
      pipe-IsStream a_frame (([], 9 ∷ [])) written received (8 ∷ []) header-Fits frame-written refl

abbrev hash_input : Bytes
hash_input = 1 ∷ 1 ∷ 2 ∷ 0 ∷ 0 ∷ 0 ∷ b'{' ∷ b'}' ∷ 3 ∷ 0 ∷ 0 ∷ 0 ∷ 0 ∷ 0 ∷ 0 ∷ 0 ∷ 0 ∷ 255 ∷ 7 ∷ []

payload-hashed :
    calculate_payload_hash (λ bytes. bytes) a_header (b'{' ∷ b'}' ∷ []) (0 ∷ 255 ∷ 7 ∷ [])
    ≡ ok hash_input
unfolding calculate_payload_hash calculate_hash check_lengths append_chunks write_le write_uint32_le
    write_uint64_le
payload-hashed = refl

calculate_payload_hash-injective_example :
    (a_header.flags ≡ a_header.flags)
    × (a_frame.json ≡ a_frame.json)
    × (a_frame.binary ≡ a_frame.binary)
calculate_payload_hash-injective_example =
    calculate_payload_hash-injective a_header a_header (b'{' ∷ b'}' ∷ []) (b'{' ∷ b'}' ∷ [])
      (0 ∷ 255 ∷ 7 ∷ []) (0 ∷ 255 ∷ 7 ∷ []) hash_input header-Fits header-Fits payload-hashed
      payload-hashed
