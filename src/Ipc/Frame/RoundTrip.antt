-- ===== src/Ipc/Frame/RoundTrip.antt =====
-- A frame that `write_frame` sends is the frame that `read_frame` receives.
use aviutl2mcp.Common.{
  ℕ, ◌<◌, ◌≡◌, refl, sym, ap, ◌∙◌, Bool, true, false, [], ◌∷◌, ◌++◌, Bytes, length, take, drop,
  take-append_self, drop-append_self, length-append, append_assoc, ok, >>=-eq-ok, arith,
}
use aviutl2mcp.Ipc.Header.{
  FrameHeader, validate_header, encode_header, write_uint32_le, write_uint64_le, ipc_header_bytes,
}
use aviutl2mcp.Ipc.Header.Validity.{validate_header_iff}
use aviutl2mcp.Ipc.Header.RoundTrip.{
  Fits, decode_header-encode_header, encode_header-length, length-write_uint32_le,
  length-write_uint64_le,
}
use aviutl2mcp.Ipc.Utf8.{validate_utf8}
use aviutl2mcp.Ipc.Stream.{ByteTransport, IsStream, read_exact}
use aviutl2mcp.Ipc.Stream.Exact.{read_exact-take, write_all-append}
use aviutl2mcp.Ipc.Frame.{
  IpcFrame, append_chunks, check_lengths, calculate_hash, calculate_payload_hash, read_frame,
  write_frame,
}

ok-injective : {A : Type 0} {a b : A} → ok a ≡ ok b → a ≡ b
ok-injective h = cc

-- What the hash of a frame is taken of.
abbrev pub preimage : FrameHeader → Bytes → Bytes → Bytes
preimage header json binary =
    (1 ∷ header.flags ∷ write_uint32_le header.json_length)
    ++ (json ++ (write_uint64_le header.binary_length ++ (binary ++ [])))

-- A frame that may be sent: the lengths are those of the parts, and within the limits.
record Sendable (frame : IpcFrame) (header_bytes : Bytes) : Type 0 where
  lengths : check_lengths frame.header frame.json frame.binary ≡ ok tt
  text : validate_utf8 frame.json ≡ ok tt
  encoded : encode_header frame.header ≡ ok header_bytes

pub checked_lengths :
    (header : FrameHeader) (json binary : Bytes)
    → check_lengths header json binary ≡ ok tt
    → (header.json_length ≡ length json) × (header.binary_length ≡ length binary)
unfolding check_lengths
checked_lengths header json binary h = ground arith

module _ (sha256 : Bytes → Bytes) where
  calculate_payload_hash-preimage :
      (header : FrameHeader) (json binary : Bytes)
      → check_lengths header json binary ≡ ok tt
      → header.flags < 256
      → validate_header header ≡ ok tt
      → calculate_payload_hash sha256 header json binary ≡ ok (sha256 (preimage header json binary))
  unfolding calculate_payload_hash calculate_hash append_chunks check_lengths
  calculate_payload_hash-preimage header json binary lengths byte valid =
      let v = (validate_header_iff header byte).0 valid in
      ground (
        arith,
        v,
        length-write_uint32_le header.json_length,
        length-write_uint64_le header.binary_length,
      )

  module _ (receiver : ByteTransport) {incoming outgoing : receiver.State → Bytes}
      (stream : IsStream receiver incoming outgoing) where
    -- `read_exact` where the part is known.
    read_part :
        (state : receiver.State) (part rest : Bytes) (size : ℕ) (clean : Bool)
        → size ≡ length part
        → incoming state ≡ part ++ rest
        → (state' : receiver.State) × (read_exact receiver state size clean ≡ ok (part, state'))
          × (incoming state' ≡ rest)
    read_part state part rest size clean e come =
        let (next, result, left) =
          read_exact-take receiver stream state size clean
            (rw come (omega (arith, length-append part rest))) in
        let taken : take size (incoming state) ≡ part =
          ap (take size) come
          ∙ ap (λ (n : ℕ). take n (part ++ rest)) e
          ∙ take-append_self part rest in
        let dropped : drop size (incoming state) ≡ rest =
          ap (drop size) come
          ∙ ap (λ (n : ℕ). drop n (part ++ rest)) e
          ∙ drop-append_self part rest in
        (next, result ∙ ap (λ (bytes : Bytes). ok (bytes, next)) taken, left ∙ dropped)

    read_frame-wire :
        (state : receiver.State) (frame : IpcFrame) (header_bytes rest : Bytes)
        → Fits frame.header
        → Sendable frame header_bytes
        → incoming state ≡ header_bytes ++ (frame.json ++ (frame.binary ++ rest))
        → (state' : receiver.State) × (read_frame sha256 receiver state
            ≡ ok (
              record frame {
                payload_hash = sha256 (preimage frame.header frame.json frame.binary);
              },
              state',
            ))
          × (incoming state' ≡ rest)
    unfolding read_frame
    read_frame-wire state frame header_bytes rest fits sent come =
        let (valid, forty) = encode_header-length frame.header header_bytes fits sent.encoded in
        let sizes : (frame.header.json_length ≡ length frame.json)
            × (frame.header.binary_length ≡ length frame.binary) =
          checked_lengths frame.header frame.json frame.binary sent.lengths in
        let (s1, read1, left1) =
          read_part state header_bytes (frame.json ++ (frame.binary ++ rest)) ipc_header_bytes true
            (sym forty) come in
        let (s2, read2, left2) =
          read_part s1 frame.json (frame.binary ++ rest) frame.header.json_length false sizes.0
            left1 in
        let (s3, read3, left3) =
          read_part s2 frame.binary rest frame.header.binary_length false sizes.1 left2 in
        (
          s3,
          rw (
            read1,
            decode_header-encode_header frame.header header_bytes fits sent.encoded,
            read2,
            read3,
            sent.text,
            calculate_payload_hash-preimage frame.header frame.json frame.binary sent.lengths
                fits.flags_byte valid,
          ),
          left3,
        )

write_frame-Sendable :
    (sender : ByteTransport) (state state' : sender.State) (frame : IpcFrame)
    → write_frame sender state frame ≡ ok state'
    → (header_bytes : Bytes) × Sendable frame header_bytes
unfolding write_frame
write_frame-Sendable sender state state' frame h =
    let (_, lengths, h1) = >>=-eq-ok (check_lengths frame.header frame.json frame.binary) _ h in
    let (_, text, h2) = >>=-eq-ok (validate_utf8 frame.json) _ h1 in
    let (bytes, encoded, _) = >>=-eq-ok (encode_header frame.header) _ h2 in
    (bytes, record { lengths = lengths; text = text; encoded = encoded })

module _ (sender : ByteTransport) {incoming outgoing : sender.State → Bytes}
    (stream : IsStream sender incoming outgoing) where
  write_frame-wire :
      (state : sender.State) (frame : IpcFrame) (header_bytes : Bytes)
      → Sendable frame header_bytes
      → (state' : sender.State) × (write_frame sender state frame ≡ ok state')
        × (outgoing state' ≡ outgoing state ++ (header_bytes ++ (frame.json ++ frame.binary)))
  unfolding write_frame
  write_frame-wire state frame header_bytes sent =
      let (s1, write1, out1) = write_all-append sender stream state header_bytes in
      let (s2, write2, out2) = write_all-append sender stream s1 frame.json in
      let (s3, write3, out3) = write_all-append sender stream s2 frame.binary in
      (
        s3,
        rw (sent.lengths, sent.text, sent.encoded, write1, write2) write3,
        out3 ∙ rw (out2, out1, append_assoc, append_assoc) refl,
      )

-- Over any two transports that are byte streams, however they cut the bytes, let `write_frame` return
-- for a frame, and let a receiver be at what it has sent, followed by any `rest`. Then `read_frame`
-- returns that frame, with the hash of its flags, lengths and parts for `payload_hash`, and leaves
-- `rest`. What was sent before stays as it was.
pub read_frame-write_frame :
    (sha256 : Bytes → Bytes) (sender receiver : ByteTransport) {sent_in sent : sender.State → Bytes}
    {received received_out : receiver.State → Bytes} (from : IsStream sender sent_in sent)
    (to : IsStream receiver received received_out) (frame : IpcFrame) (s s' : sender.State)
    (r : receiver.State) (rest : Bytes)
    → Fits frame.header
    → write_frame sender s frame ≡ ok s'
    → received r ≡ drop (length (sent s)) (sent s') ++ rest
    → (sent s' ≡ sent s ++ drop (length (sent s)) (sent s'))
      × (r' : receiver.State) × (read_frame sha256 receiver r
          ≡ ok (
            record frame { payload_hash = sha256 (preimage frame.header frame.json frame.binary) },
            r',
          ))
      × (received r' ≡ rest)
read_frame-write_frame sha256 sender receiver {sent = sent} from to frame s s' r rest fits h come =
    let (header_bytes, sendable) = write_frame-Sendable sender s s' frame h in
    let (last, result, out) = write_frame-wire sender from s frame header_bytes sendable in
    let same : last ≡ s' = ok-injective (sym result ∙ h) in
    let all : sent s' ≡ sent s ++ (header_bytes ++ (frame.json ++ frame.binary)) =
      ap sent (sym same) ∙ out in
    let wire : drop (length (sent s)) (sent s') ≡ header_bytes ++ (frame.json ++ frame.binary) =
      rw all (drop-append_self (sent s) _) in
    let (r', read, left) =
      read_frame-wire sha256 receiver to r frame header_bytes rest fits sendable
        (come ∙ rw (wire, append_assoc, append_assoc) refl) in
    (all ∙ ap (λ w. sent s ++ w) (sym wire), r', read, left)
