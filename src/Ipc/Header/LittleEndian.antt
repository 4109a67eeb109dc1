-- ===== src/Ipc/Header/LittleEndian.antt =====
-- The loops of ipc_header.cpp that store and read the lengths, and where a header has its parts.
use Prim.Native.Nat.{bit_or}
use native.Mathlib.Nat.{mod-eq_of_lt}
use aviutl2mcp.Common.{
  ℕ, ◌+◌, ◌*◌, ◌/◌, ◌%◌, ◌^◌, ◌<◌, ◌≡◌, refl, ◌∙◌, [], ◌∷◌, ◌++◌, Bytes, IsBytes, length, arith,
}
use aviutl2mcp.Common.Bits.{bit_or-shift}
use aviutl2mcp.Ipc.Header.{
  write_uint32_le, write_uint64_le, read_uint32_le, read_uint64_le, parse_header,
}

-- One round of a reading loop: `acc |= b << k`.
or_byte :
    (k width acc b : ℕ)
    → acc < 2 ^ k
    → b * 2 ^ k < 2 ^ width
    → bit_or acc (b * 2 ^ k % 2 ^ width) ≡ acc + b * 2 ^ k
or_byte k width acc b h fits = rw (mod-eq_of_lt fits) (bit_or-shift k acc b h)

abbrev sum4 : ℕ → ℕ → ℕ → ℕ → ℕ
sum4 a b c d = a + b * 2 ^ 8 + c * 2 ^ 16 + d * 2 ^ 24

read_uint32_le-sum :
    (a b c d : ℕ)
    → IsBytes (a ∷ b ∷ c ∷ d ∷ [])
    → read_uint32_le (a ∷ b ∷ c ∷ d ∷ []) 0 ≡ sum4 a b c d
unfolding read_uint32_le
read_uint32_le-sum a b c d h = ground (
  arith,
  or_byte 0 32 0 a,
  or_byte 8 32 a b,
  or_byte 16 32 (a + b * 2 ^ 8) c,
  or_byte 24 32 (a + b * 2 ^ 8 + c * 2 ^ 16) d,
)

pub write-read_uint32_le :
    (a b c d : ℕ)
    → IsBytes (a ∷ b ∷ c ∷ d ∷ [])
    → write_uint32_le (read_uint32_le (a ∷ b ∷ c ∷ d ∷ []) 0) ≡ a ∷ b ∷ c ∷ d ∷ []
unfolding write_uint32_le
write-read_uint32_le a b c d h = rw (read_uint32_le-sum a b c d h) (ground arith)

pub write-read_uint32 :
    (w : Bytes) → length w ≡ 4 → IsBytes w → write_uint32_le (read_uint32_le w 0) ≡ w
write-read_uint32 (a ∷ b ∷ c ∷ d ∷ []) e h = write-read_uint32_le a b c d h
write-read_uint32 w e h = absurd (omega arith)

abbrev sum8 : ℕ → ℕ → ℕ → ℕ → ℕ → ℕ → ℕ → ℕ → ℕ
sum8 a b c d e f g h = sum4 a b c d + e * 2 ^ 32 + f * 2 ^ 40 + g * 2 ^ 48 + h * 2 ^ 56

read_uint64_le-sum :
    (a b c d e f g h : ℕ)
    → IsBytes (a ∷ b ∷ c ∷ d ∷ e ∷ f ∷ g ∷ h ∷ [])
    → read_uint64_le (a ∷ b ∷ c ∷ d ∷ e ∷ f ∷ g ∷ h ∷ []) 0 ≡ sum8 a b c d e f g h
unfolding read_uint64_le
read_uint64_le-sum a b c d e f g h v = ground (
  arith,
  or_byte 0 64 0 a,
  or_byte 8 64 a b,
  or_byte 16 64 (a + b * 2 ^ 8) c,
  or_byte 24 64 (a + b * 2 ^ 8 + c * 2 ^ 16) d,
  or_byte 32 64 (sum4 a b c d) e,
  or_byte 40 64 (sum4 a b c d + e * 2 ^ 32) f,
  or_byte 48 64 (sum4 a b c d + e * 2 ^ 32 + f * 2 ^ 40) g,
  or_byte 56 64 (sum4 a b c d + e * 2 ^ 32 + f * 2 ^ 40 + g * 2 ^ 48) h,
)

pub write-read_uint64_le :
    (a b c d e f g h : ℕ)
    → IsBytes (a ∷ b ∷ c ∷ d ∷ e ∷ f ∷ g ∷ h ∷ [])
    → write_uint64_le (read_uint64_le (a ∷ b ∷ c ∷ d ∷ e ∷ f ∷ g ∷ h ∷ []) 0)
      ≡ a ∷ b ∷ c ∷ d ∷ e ∷ f ∷ g ∷ h ∷ []
unfolding write_uint64_le
write-read_uint64_le a b c d e f g h v = rw (read_uint64_le-sum a b c d e f g h v) (ground arith)

pub write-read_uint64 :
    (v : Bytes) → length v ≡ 8 → IsBytes v → write_uint64_le (read_uint64_le v 0) ≡ v
write-read_uint64 (a ∷ b ∷ c ∷ d ∷ e ∷ f ∷ g ∷ h ∷ []) q r = write-read_uint64_le a b c d e f g h r
write-read_uint64 v q r = absurd (omega arith)

-- The other way round: the loops read back the number that was stored.
pub read-write_uint32_le :
    (value : ℕ) → value < 2 ^ 32 → read_uint32_le (write_uint32_le value) 0 ≡ value
unfolding write_uint32_le
read-write_uint32_le value h =
    read_uint32_le-sum (value / 2 ^ 0 % 256) (value / 2 ^ 8 % 256) (value / 2 ^ 16 % 256)
      (value / 2 ^ 24 % 256) (omega arith)
    ∙ omega arith

pub read-write_uint64_le :
    (value : ℕ) → value < 2 ^ 64 → read_uint64_le (write_uint64_le value) 0 ≡ value
unfolding write_uint64_le
read-write_uint64_le value h =
    read_uint64_le-sum (value / 2 ^ 0 % 256) (value / 2 ^ 8 % 256) (value / 2 ^ 16 % 256)
      (value / 2 ^ 24 % 256) (value / 2 ^ 32 % 256) (value / 2 ^ 40 % 256) (value / 2 ^ 48 % 256)
      (value / 2 ^ 56 % 256) (omega arith)
    ∙ omega arith

-- Where `parse_header` finds the parts of a header.
pub parse_header_layout :
    (p0 p1 p2 p3 p4 p5 p6 p7 p8 p9 p10 p11 : ℕ) (id w v : Bytes)
    → length id ≡ 16
    → length w ≡ 4
    → length v ≡ 8
    → parse_header
        ((p0 ∷ p1 ∷ p2 ∷ p3 ∷ p4 ∷ p5 ∷ p6 ∷ p7 ∷ p8 ∷ p9 ∷ p10 ∷ p11 ∷ []) ++ (id ++ (w ++ v)))
      ≡ record {
        kind = p8;
        flags = p9;
        request_id = id;
        json_length = read_uint32_le w 0;
        binary_length = read_uint64_le v 0;
      }
unfolding parse_header read_uint32_le read_uint64_le
parse_header_layout p0 p1 p2 p3 p4 p5 p6 p7 p8 p9 p10 p11
      (i0 ∷ i1 ∷ i2 ∷ i3 ∷ i4 ∷ i5 ∷ i6 ∷ i7 ∷ i8 ∷ i9 ∷ i10 ∷ i11 ∷ i12 ∷ i13 ∷ i14 ∷ i15 ∷ [])
      (w0 ∷ w1 ∷ w2 ∷ w3 ∷ []) (v0 ∷ v1 ∷ v2 ∷ v3 ∷ v4 ∷ v5 ∷ v6 ∷ v7 ∷ []) a b c =
    refl
parse_header_layout p0 p1 p2 p3 p4 p5 p6 p7 p8 p9 p10 p11 id w v a b c = absurd (omega arith)
