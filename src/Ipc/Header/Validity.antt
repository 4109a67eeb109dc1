-- ===== src/Ipc/Header/Validity.antt =====
-- What `validate_header` of ipc_header.cpp accepts, as arithmetic on the fields.
use Prim.Native.Nat.{bit_and}
use aviutl2mcp.Common.{
  ℕ, ◌*◌, ◌/◌, ◌%◌, ◌≤◌, ◌<◌, ◌≡◌, ◌↔◌, ◌⊎◌, ◌==◌, inl, inr, refl, false, ok, arith, Bool-cases,
}
use aviutl2mcp.Common.Bits.{agree_on_bytes, all_below}
use aviutl2mcp.Ipc.Header.{
  FrameHeader, all_zero, validate_header, ipc_max_json_bytes, ipc_max_binary_bytes,
}

-- The constraints of the protocol. The flag for a binary part is the lowest bit.
pub record IsValid (header : FrameHeader) : Type 0 where
  pub kind_known : (1 ≤ header.kind) × (header.kind ≤ 9)
  pub flags_known : header.flags < 8
  pub id_present : (header.kind ≡ 9) ⊎ (all_zero header.request_id ≡ false)
  pub json_fits : header.json_length ≤ ipc_max_json_bytes
  pub binary_fits : header.binary_length ≤ ipc_max_binary_bytes
  pub binary_flagged : (header.flags % 2 ≡ 1) ↔ (0 < header.binary_length)

pub unknown_bits : (f : ℕ) → f < 256 → bit_and f 0xf8 ≡ f / 8 * 8
unfolding all_below
unknown_bits = agree_on_bytes (λ f. bit_and f 0xf8) (λ f. f / 8 * 8) refl

pub binary_bit : (f : ℕ) → f < 256 → bit_and f 1 ≡ f % 2
unfolding all_below
binary_bit = agree_on_bytes (λ f. bit_and f 1) (λ f. f % 2) refl

validate_header→IsValid :
    (header : FrameHeader) → header.flags < 256 → validate_header header ≡ ok tt → IsValid header
unfolding validate_header
validate_header→IsValid header byte h = record {
  kind_known = (ground arith, ground arith);
  flags_known = ground (arith, unknown_bits header.flags);
  id_present = elim (Bool-cases (header.kind == 9)) [
    | inl log ↦ inl (ground arith)
    | inr other ↦ inr (ground arith)
  ];
  json_fits = ground arith;
  binary_fits = ground arith;
  binary_flagged =
      (λ e. ground (arith, binary_bit header.flags), λ e. ground (arith, binary_bit header.flags));
}

IsValid→validate_header :
    (header : FrameHeader) → header.flags < 256 → IsValid header → validate_header header ≡ ok tt
unfolding validate_header
IsValid→validate_header header byte v =
    ground (arith, unknown_bits header.flags, binary_bit header.flags)

-- `validate_header` accepts exactly the headers that meet the protocol's constraints, for every
-- byte of flags.
pub validate_header_iff :
    (header : FrameHeader) → header.flags < 256 → (validate_header header ≡ ok tt) ↔ IsValid header
validate_header_iff header byte =
    (validate_header→IsValid header byte, IsValid→validate_header header byte)
