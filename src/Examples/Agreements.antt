-- ===== src/Examples/Agreements.antt =====
-- A client of AviUtl2MCP.Bridge/src/handshake.cpp that asks for less and for more than the bridge has.
use aviutl2mcp.Common.{ℕ, ◌≡◌, ◌↔◌, refl, true, [], ◌∷◌, ok}
use aviutl2mcp.Platform.{c_str, try_parse_uuid, uuid_equals, is_nonzero_uuid}
use aviutl2mcp.Handshake.{
  ProtocolRange, ClientHello, server_limits, supports_v1_0, check_hello, negotiate,
}
use aviutl2mcp.Handshake.Agreement.{
  AtMost, IsAgreed, supports_v1_0_iff, negotiate-accepted_iff, negotiate-limits,
}
use aviutl2mcp.Examples.Mutations.{a_platform}

abbrev some_range : ProtocolRange
some_range = record { min_major = 0; min_minor = 9; max_major = 2; max_minor = 0 }

abbrev a_hello : ClientHello
a_hello = record {
  client_instance_id = b'c' ∷ [];
  client_process_id = 42;
  target_instance_id = b't' ∷ [];
  protocol = some_range;
  client_version = b'1' ∷ [];
  limits = record { json_bytes = 1000; binary_bytes = 99999999; in_flight = 8 };
}

hello-checked : check_hello a_platform a_hello ≡ ok tt
unfolding check_hello is_nonzero_uuid try_parse_uuid c_str
hello-checked = refl

abbrev process : ℕ
process = 42

supports_v1_0_iff_example : (supports_v1_0 some_range ≡ true) ↔ (AtMost 0 9 1 0 × AtMost 1 0 2 0)
supports_v1_0_iff_example = supports_v1_0_iff some_range

negotiate-accepted_iff_example :
    ((negotiate a_platform (b'b' ∷ []) a_hello process).accepted ≡ true) ↔ (
      (a_hello.client_process_id ≡ process)
      × (uuid_equals a_platform (b't' ∷ []) (b'b' ∷ []) ≡ true)
      × (supports_v1_0 some_range ≡ true))
negotiate-accepted_iff_example = negotiate-accepted_iff a_platform (b'b' ∷ []) a_hello process

negotiate-limits_example :
    IsAgreed 1000 server_limits.json_bytes
      (negotiate a_platform (b'b' ∷ []) a_hello process).limits.json_bytes
    × IsAgreed 99999999 server_limits.binary_bytes
        (negotiate a_platform (b'b' ∷ []) a_hello process).limits.binary_bytes
    × IsAgreed 8 server_limits.in_flight
        (negotiate a_platform (b'b' ∷ []) a_hello process).limits.in_flight
negotiate-limits_example = negotiate-limits a_platform (b'b' ∷ []) a_hello process hello-checked
