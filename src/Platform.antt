-- ===== src/Platform.antt =====
-- What the bridge takes from Windows and from the C++ library, as a parameter, and
-- `uuid_equals` and `is_nonzero_uuid` of AviUtl2MCP.Bridge/src/bridge_identity.cpp over it.
use aviutl2mcp.Common.{
  ℕ, Bool, false, not, Option, none, some, [], ◌∷◌, Bytes, ◌==◌, if◌then◌else◌, is_empty,
}

-- `sha256` is the lower-case digest that BCrypt computes, `uuid_from_string` is `UuidFromStringA`
-- with a UUID as a 128-bit number, and `ticks_per_ms` is the resolution of `system_clock`.
pub record Platform : Type 0 where
  pub sha256 : Bytes → Bytes
  pub uuid_from_string : Bytes → Option ℕ
  pub ticks_per_ms : ℕ

-- The C string at `c_str()`: it ends at the first NUL.
unfoldable pub c_str : Bytes → Bytes
c_str [] = []
c_str (b ∷ bytes) = let rest = c_str bytes in if b == 0 then [] else b ∷ rest

module _ (platform : Platform) where
  unfoldable pub try_parse_uuid : Bytes → Option ℕ
  try_parse_uuid value = if is_empty value then none else platform.uuid_from_string (c_str value)

  unfoldable pub uuid_equals : Bytes → Bytes → Bool
  uuid_equals left right = elim (try_parse_uuid left) [
    | none ↦ false
    | some left_uuid ↦ elim (try_parse_uuid right) [
      | none ↦ false
      | some right_uuid ↦ left_uuid == right_uuid
    ]
  ]

  unfoldable pub is_nonzero_uuid : Bytes → Bool
  is_nonzero_uuid value = elim (try_parse_uuid value) [
    | none ↦ false
    | some parsed ↦ not (parsed == 0)
  ]
