-- ===== src/Ipc/Header/RoundTrip.antt =====
-- `encode_header` and `decode_header` of ipc_header.cpp are inverse to each other.
use aviutl2mcp.Common.{
  ℕ, ◌^◌, ◌<◌, ◌≡◌, refl, sym, ap, ◌∙◌, [], ◌∷◌, ◌++◌, Bytes, IsBytes, length, get_or, take, drop,
  take-append-drop, All-take, All-drop, length-append, length-take, length-drop, ok, arith,
  >>=-eq-ok,
}
use aviutl2mcp.Ipc.Header.{
  FrameHeader, validate_header, write_uint32_le, write_uint64_le, encode_header, read_uint32_le,
  read_uint64_le, parse_header, decode_header, ipc_header_bytes,
}
use aviutl2mcp.Ipc.Header.LittleEndian.{
  read-write_uint32_le, read-write_uint64_le, write-read_uint32, write-read_uint64,
  parse_header_layout,
}

-- The widths of the fields in C++.
pub record Fits (header : FrameHeader) : Type 0 where
  pub kind_byte : header.kind < 256
  pub flags_byte : header.flags < 256
  pub id_length : length header.request_id ≡ 16
  pub id_bytes : IsBytes header.request_id
  pub json_word : header.json_length < 2 ^ 32
  pub binary_word : header.binary_length < 2 ^ 64

abbrev wire : FrameHeader → Bytes
wire header =
    (0x41 ∷ 0x32 ∷ 0x4d ∷ 0x50 ∷ ipc_header_bytes ∷ 0 ∷ 1 ∷ 0 ∷ header.kind ∷ header.flags ∷ 0 ∷ 0
      ∷ [])
    ++ (header.request_id
        ++ (write_uint32_le header.json_length ++ write_uint64_le header.binary_length))

pub length-write_uint32_le : (value : ℕ) → length (write_uint32_le value) ≡ 4
unfolding write_uint32_le
length-write_uint32_le value = refl

pub length-write_uint64_le : (value : ℕ) → length (write_uint64_le value) ≡ 8
unfolding write_uint64_le
length-write_uint64_le value = refl

parse_header-wire : (header : FrameHeader) → Fits header → parse_header (wire header) ≡ header
parse_header-wire header fits =
    parse_header_layout 0x41 0x32 0x4d 0x50 ipc_header_bytes 0 1 0 header.kind header.flags 0 0
      header.request_id (write_uint32_le header.json_length) (write_uint64_le header.binary_length)
      fits.id_length (length-write_uint32_le header.json_length)
      (length-write_uint64_le header.binary_length)
    ∙ rw (
      read-write_uint32_le header.json_length fits.json_word,
      read-write_uint64_le header.binary_length fits.binary_word,
    )

-- A header that `encode_header` accepts is read back by `decode_header`, field by field.
pub decode_header-encode_header :
    (header : FrameHeader) (bytes : Bytes)
    → Fits header
    → encode_header header ≡ ok bytes
    → decode_header bytes ≡ ok header
unfolding encode_header decode_header
decode_header-encode_header header bytes fits h =
    let (_, valid, e) = >>=-eq-ok (validate_header header) _ h in
    let w : bytes ≡ wire header = ground arith in
    rw w (rw (parse_header-wire header fits) (rw valid refl))

-- What a successful `decode_header` has checked.
record Decoded (bytes : Bytes) (header : FrameHeader) : Type 0 where
  magic_0 : get_or bytes 0 0 ≡ 0x41
  magic_1 : get_or bytes 1 0 ≡ 0x32
  magic_2 : get_or bytes 2 0 ≡ 0x4d
  magic_3 : get_or bytes 3 0 ≡ 0x50
  size_low : get_or bytes 4 0 ≡ 40
  size_high : get_or bytes 5 0 ≡ 0
  major : get_or bytes 6 0 ≡ 1
  minor : get_or bytes 7 0 ≡ 0
  reserved_0 : get_or bytes 10 0 ≡ 0
  reserved_1 : get_or bytes 11 0 ≡ 0
  valid : validate_header (parse_header bytes) ≡ ok tt
  parsed : parse_header bytes ≡ header

decode_header-Decoded :
    (bytes : Bytes) (header : FrameHeader) → decode_header bytes ≡ ok header → Decoded bytes header
unfolding decode_header
decode_header-Decoded bytes header h = ground arith

-- The part of an array behind its first twelve bytes, in three.
split_tail :
    (rest : Bytes) → take 16 rest ++ (take 4 (drop 16 rest) ++ drop 4 (drop 16 rest)) ≡ rest
split_tail rest =
    ap (λ r. take 16 rest ++ r) (take-append-drop 4 (drop 16 rest)) ∙ take-append-drop 16 rest

module _ (p0 p1 p2 p3 p4 p5 p6 p7 p8 p9 p10 p11 : ℕ) (rest : Bytes) (len : length rest ≡ 28)
    (byte : IsBytes rest) where
  abbrev array : Bytes
  array = p0 ∷ p1 ∷ p2 ∷ p3 ∷ p4 ∷ p5 ∷ p6 ∷ p7 ∷ p8 ∷ p9 ∷ p10 ∷ p11 ∷ rest

  abbrev json_part : Bytes
  json_part = take 4 (drop 16 rest)

  abbrev binary_part : Bytes
  binary_part = drop 4 (drop 16 rest)

  lengths : (length (take 16 rest) ≡ 16) × (length json_part ≡ 4) × (length binary_part ≡ 8)
  lengths = omega (
    arith,
    length-take 16 rest,
    length-drop 16 rest,
    length-take 4 (drop 16 rest),
    length-drop 4 (drop 16 rest),
  )

  parse_header-array : parse_header array ≡ record {
    kind = p8;
    flags = p9;
    request_id = take 16 rest;
    json_length = read_uint32_le json_part 0;
    binary_length = read_uint64_le binary_part 0;
  }
  parse_header-array =
      ap
        (λ (r : Bytes).
          parse_header (p0 ∷ p1 ∷ p2 ∷ p3 ∷ p4 ∷ p5 ∷ p6 ∷ p7 ∷ p8 ∷ p9 ∷ p10 ∷ p11 ∷ r))
        (sym (split_tail rest))
      ∙ parse_header_layout p0 p1 p2 p3 p4 p5 p6 p7 p8 p9 p10 p11 (take 16 rest) json_part
          binary_part lengths.0 lengths.1 lengths.2

  wire-array : (header : FrameHeader) → Decoded array header → wire header ≡ array
  wire-array header d =
      let e = sym parse_header-array ∙ d.parsed in
      ground (
        arith,
        e,
        split_tail rest,
        write-read_uint32 json_part lengths.1 (All-take _ 4 _ (All-drop _ 16 rest byte)),
        write-read_uint64 binary_part lengths.2 (All-drop _ 4 _ (All-drop _ 16 rest byte)),
      )

wire-Decoded :
    (bytes : Bytes) (header : FrameHeader)
    → length bytes ≡ ipc_header_bytes
    → IsBytes bytes
    → Decoded bytes header
    → wire header ≡ bytes
wire-Decoded (p0 ∷ p1 ∷ p2 ∷ p3 ∷ p4 ∷ p5 ∷ p6 ∷ p7 ∷ p8 ∷ p9 ∷ p10 ∷ p11 ∷ rest) header len byte
      d =
    wire-array p0 p1 p2 p3 p4 p5 p6 p7 p8 p9 p10 p11 rest (omega arith)
      (All-drop (λ b. b < 256) 12
        (p0 ∷ p1 ∷ p2 ∷ p3 ∷ p4 ∷ p5 ∷ p6 ∷ p7 ∷ p8 ∷ p9 ∷ p10 ∷ p11 ∷ rest) byte)
      header d
wire-Decoded bytes header len byte d = absurd (omega arith)

-- A 40-byte header that `decode_header` accepts is the only encoding of its result: `encode_header`
-- gives back the same 40 bytes.
pub encode_header-decode_header :
    (bytes : Bytes) (header : FrameHeader)
    → length bytes ≡ ipc_header_bytes
    → IsBytes bytes
    → decode_header bytes ≡ ok header
    → encode_header header ≡ ok bytes
unfolding encode_header
encode_header-decode_header bytes header len byte h =
    let d = decode_header-Decoded bytes header h in
    rw (← d.parsed, d.valid, d.parsed) (ap ok (wire-Decoded bytes header len byte d))

-- What `encode_header` gives has been validated, and is 40 bytes long.
pub encode_header-length :
    (header : FrameHeader) (bytes : Bytes)
    → Fits header
    → encode_header header ≡ ok bytes
    → (validate_header header ≡ ok tt) × (length bytes ≡ ipc_header_bytes)
unfolding encode_header
encode_header-length header bytes fits h =
    let (_, valid, e) = >>=-eq-ok (validate_header header) _ h in
    let w : bytes ≡ wire header = ground arith in
    let l : length (write_uint32_le header.json_length ++ write_uint64_le header.binary_length)
        ≡ 12 =
      omega (
        arith,
        length-append (write_uint32_le header.json_length) (write_uint64_le header.binary_length),
        length-write_uint32_le header.json_length,
        length-write_uint64_le header.binary_length,
      ) in
    (
      valid,
      rw w (
          omega (
            arith,
            fits.id_length,
            l,
            length-append header.request_id
                (write_uint32_le header.json_length ++ write_uint64_le header.binary_length),
          )),
    )
