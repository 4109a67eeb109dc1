-- ===== src/Ipc/Frame/Preimage.antt =====
-- What `calculate_payload_hash` of native_ipc_frame_codec.cpp hashes tells frames apart.
use aviutl2mcp.Common.{
  ◌≡◌, refl, sym, ap, ◌∙◌, List, [], ◌∷◌, ◌++◌, Bytes, length, append-nil, arith, ok, >>=-eq-ok,
}
use aviutl2mcp.Ipc.Header.{FrameHeader, write_uint32_le, write_uint64_le, read_uint32_le}
use aviutl2mcp.Ipc.Header.LittleEndian.{read-write_uint32_le}
use aviutl2mcp.Ipc.Header.RoundTrip.{Fits, length-write_uint32_le, length-write_uint64_le}
use aviutl2mcp.Ipc.Frame.{check_lengths, append_chunks, calculate_hash, calculate_payload_hash}
use aviutl2mcp.Ipc.Frame.RoundTrip.{preimage, checked_lengths}

-- Two joins with first parts of one length agree part by part.
append-injective {ℓ} :
    {A : Type ℓ} (xs ys : List A) (xs' ys' : List A)
    → length xs ≡ length ys
    → xs ++ xs' ≡ ys ++ ys'
    → (xs ≡ ys) × (xs' ≡ ys')
append-injective [] [] xs' ys' e h = (refl, h)
append-injective [] (y ∷ ys) xs' ys' e h = absurd (omega arith)
append-injective (x ∷ xs) [] xs' ys' e h = absurd (omega arith)
append-injective (x ∷ xs) (y ∷ ys) xs' ys' e h =
    let (p, q) = append-injective xs ys xs' ys' (omega arith) (cc) in (cc, q)

-- Frames whose parts join to equal bytes have equal flags, JSON and binary parts.
preimage-injective :
    (h h' : FrameHeader) (json json' binary binary' : Bytes)
    → Fits h
    → Fits h'
    → check_lengths h json binary ≡ ok tt
    → check_lengths h' json' binary' ≡ ok tt
    → preimage h json binary ≡ preimage h' json' binary'
    → (h.flags ≡ h'.flags) × (json ≡ json') × (binary ≡ binary')
preimage-injective h h' json json' binary binary' fits fits' lengths lengths' e =
    let (j, b) = checked_lengths h json binary lengths in
    let (j', b') = checked_lengths h' json' binary' lengths' in
    let (front, back) =
      append-injective (1 ∷ h.flags ∷ write_uint32_le h.json_length)
        (1 ∷ h'.flags ∷ write_uint32_le h'.json_length) _ _
        (omega (arith, length-write_uint32_le h.json_length, length-write_uint32_le h'.json_length))
        e in
    let words : write_uint32_le h.json_length ≡ write_uint32_le h'.json_length = cc in
    let same : h.json_length ≡ h'.json_length =
      sym (read-write_uint32_le h.json_length fits.json_word)
      ∙ ap (λ (w : Bytes). read_uint32_le w 0) words
      ∙ read-write_uint32_le h'.json_length fits'.json_word in
    let (text, tail) = append-injective json json' _ _ (omega arith) back in
    let (_, last) =
      append-injective (write_uint64_le h.binary_length) (write_uint64_le h'.binary_length)
        (binary ++ []) (binary' ++ [])
        (omega
          (arith, length-write_uint64_le h.binary_length, length-write_uint64_le h'.binary_length))
        tail in
    (cc, text, sym (append-nil binary) ∙ last ∙ append-nil binary')

hashed :
    (header : FrameHeader) (json binary bytes : Bytes)
    → calculate_payload_hash (λ input. input) header json binary ≡ ok bytes
    → (check_lengths header json binary ≡ ok tt) × (bytes ≡ preimage header json binary)
unfolding calculate_payload_hash calculate_hash append_chunks
hashed header json binary bytes h =
    let (_, lengths, h1) = >>=-eq-ok (check_lengths header json binary) _ h in
    (lengths, ground arith)

-- The input of the payload hash tells frames apart: with the identity for SHA-256, frames for which
-- `calculate_payload_hash` returns the same bytes have equal flags, JSON and binary parts, so that
-- no byte of one part can pass for a byte of another.
pub calculate_payload_hash-injective :
    (h h' : FrameHeader) (json json' binary binary' bytes : Bytes)
    → Fits h
    → Fits h'
    → calculate_payload_hash (λ input. input) h json binary ≡ ok bytes
    → calculate_payload_hash (λ input. input) h' json' binary' ≡ ok bytes
    → (h.flags ≡ h'.flags) × (json ≡ json') × (binary ≡ binary')
calculate_payload_hash-injective h h' json json' binary binary' bytes fits fits' e e' =
    let (lengths, is) = hashed h json binary bytes e in
    let (lengths', is') = hashed h' json' binary' bytes e' in
    preimage-injective h h' json json' binary binary' fits fits' lengths lengths' (sym is ∙ is')
