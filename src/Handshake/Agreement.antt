-- ===== src/Handshake/Agreement.antt =====
-- Which clients the handshake of handshake.cpp accepts, and the limits that it gives them.
use aviutl2mcp.Common.{
  ℕ, ◌≤◌, ◌<◌, ◌≡◌, ◌↔◌, ◌⊎◌, leb, inl, inr, true, Bytes, ok, min, arith, Bool-cases,
}
use aviutl2mcp.Platform.{Platform, uuid_equals}
use aviutl2mcp.Handshake.{
  ProtocolRange, ClientHello, server_limits, supports_v1_0, check_hello, negotiate_limits,
  negotiate,
}

-- The order of protocol versions, by major number first.
abbrev pub AtMost : (major minor major' minor' : ℕ) → Type 0
AtMost major minor major' minor' = (major < major') ⊎ ((major ≡ major') × (minor ≤ minor'))

-- `supports_v1_0` holds of exactly the ranges that protocol 1.0 lies in, from the lowest to the
-- highest version, by the order of versions.
pub supports_v1_0_iff :
    (range : ProtocolRange)
    → (supports_v1_0 range ≡ true)
      ↔ (AtMost range.min_major range.min_minor 1 0 × AtMost 1 0 range.max_major range.max_minor)
unfolding supports_v1_0
supports_v1_0_iff range = (λ h. ground arith, λ h. ground arith)

-- `negotiate` accepts a client exactly if the process at the other end of the pipe is the one that
-- it names, it means this bridge, and its protocol range has version 1.0.
pub negotiate-accepted_iff :
    (platform : Platform) (instance_id : Bytes) (hello : ClientHello) (process : ℕ)
    → ((negotiate platform instance_id hello process).accepted ≡ true) ↔ (
        (hello.client_process_id ≡ process)
        × (uuid_equals platform hello.target_instance_id instance_id ≡ true)
        × (supports_v1_0 hello.protocol ≡ true))
unfolding negotiate
negotiate-accepted_iff platform instance_id hello process = (λ h. ground arith, λ h. ground arith)

-- A positive limit that both sides can keep, and that is one of the two.
abbrev pub IsAgreed : (asked offered agreed : ℕ) → Type 0
IsAgreed asked offered agreed =
    (0 < agreed) × (agreed ≤ asked) × (agreed ≤ offered) × ((agreed ≡ asked) ⊎ (agreed ≡ offered))

min-IsAgreed :
    (asked offered : ℕ) → 0 < asked → 0 < offered → IsAgreed asked offered (min asked offered)
min-IsAgreed asked offered h k = elim (Bool-cases (leb asked offered)) [
  | inl small ↦ (ground arith, omega arith, omega arith, inl (ground arith))
  | inr large ↦ (ground arith, omega arith, omega arith, inr (ground arith))
]

-- For a client whose `ClientHello` passed the tests of the parser, whether or not it is accepted:
-- each limit of the result is positive, at most what the client asked for, at most what the bridge
-- offers, and one of these two.
pub negotiate-limits :
    (platform : Platform) (instance_id : Bytes) (hello : ClientHello) (process : ℕ)
    → check_hello platform hello ≡ ok tt
    → let limits = (negotiate platform instance_id hello process).limits in
      IsAgreed hello.limits.json_bytes server_limits.json_bytes limits.json_bytes
      × IsAgreed hello.limits.binary_bytes server_limits.binary_bytes limits.binary_bytes
      × IsAgreed hello.limits.in_flight server_limits.in_flight limits.in_flight
unfolding check_hello negotiate_limits
negotiate-limits platform instance_id hello process h = rw (same) (
  min-IsAgreed hello.limits.json_bytes server_limits.json_bytes (ground arith) (omega arith),
  min-IsAgreed hello.limits.binary_bytes server_limits.binary_bytes (ground arith) (omega arith),
  min-IsAgreed hello.limits.in_flight server_limits.in_flight (ground arith) (omega arith),
)
  where
    same : (negotiate platform instance_id hello process).limits ≡ negotiate_limits hello.limits
    same = unfold negotiate in ground arith
