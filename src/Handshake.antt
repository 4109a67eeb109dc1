-- ===== src/Handshake.antt =====
-- AviUtl2MCP.Bridge/src/handshake.cpp and include/aviutl2_mcp/handshake.h: what client and bridge
-- agree on. The JSON texts are left to the JSON library: a `ClientHello` stands as its fields.
pub mod Agreement
use aviutl2mcp.Common.{
  ℕ, ◌*◌, Bool, true, false, not, ◌&&◌, ◌||◌, [], Bytes, ltb, ◌==◌, if◌then◌else◌, min, length,
  text, is_empty, Result, ok, err, throw_if, invalid_argument,
}
use aviutl2mcp.Ipc.Header.{ipc_max_json_bytes, ipc_max_binary_bytes}
use aviutl2mcp.Platform.{Platform, uuid_equals, is_nonzero_uuid}

pub record ProtocolRange : Type 0 where
  pub min_major : ℕ
  pub min_minor : ℕ
  pub max_major : ℕ
  pub max_minor : ℕ

pub record HandshakeLimits : Type 0 where
  pub json_bytes : ℕ
  pub binary_bytes : ℕ
  pub in_flight : ℕ

pub record ClientHello : Type 0 where
  pub client_instance_id : Bytes
  pub client_process_id : ℕ
  pub target_instance_id : Bytes
  pub protocol : ProtocolRange
  pub client_version : Bytes
  pub limits : HandshakeLimits

pub record HandshakeResult : Type 0 where
  pub accepted : Bool
  pub limits : HandshakeLimits
  pub error_code : Bytes
  pub error_message : Bytes

-- `SERVER_LIMITS`.
abbrev pub server_limits : HandshakeLimits
server_limits = record {
  json_bytes = ipc_max_json_bytes;
  binary_bytes = ipc_max_binary_bytes;
  in_flight = 8;
}

unfoldable pub supports_v1_0 : ProtocolRange → Bool
supports_v1_0 range =
    if ltb range.max_major range.min_major
    then false
    else if range.min_major == range.max_major && ltb range.max_minor range.min_minor
    then false
    else if ltb 1 range.min_major || ltb range.max_major 1
    then false
    else if range.min_major == 1 && ltb 0 range.min_minor
    then false
    else true

-- The tests that `parse_client_hello` makes of the fields.
unfoldable pub check_hello : Platform → ClientHello → Result (Unit {0})
check_hello platform hello =
    throw_if
      (not (is_nonzero_uuid platform hello.client_instance_id)
        || (not (is_nonzero_uuid platform hello.target_instance_id)
            || (hello.client_process_id == 0
                || (is_empty hello.client_version
                    || (ltb 64 (length hello.client_version)
                        || (hello.limits.json_bytes == 0
                            || (hello.limits.binary_bytes == 0 || hello.limits.in_flight == 0)))))))
      (invalid_argument "ClientHello fields were outside the supported constraints")

-- `negotiated`.
unfoldable pub negotiate_limits : HandshakeLimits → HandshakeLimits
negotiate_limits limits = record {
  json_bytes = min limits.json_bytes server_limits.json_bytes;
  binary_bytes = min limits.binary_bytes server_limits.binary_bytes;
  in_flight = min limits.in_flight server_limits.in_flight;
}

abbrev refuse : HandshakeLimits → Bytes → Bytes → HandshakeResult
refuse negotiated code message = record {
  accepted = false;
  limits = negotiated;
  error_code = code;
  error_message = message;
}

-- `instance_id` is that of the bridge's identity.
unfoldable pub negotiate : Platform → Bytes → ClientHello → ℕ → HandshakeResult
negotiate platform instance_id hello actual_client_process_id =
    let negotiated = negotiate_limits hello.limits in
    if not (hello.client_process_id == actual_client_process_id)
    then refuse negotiated (text "client_pid_mismatch")
        (text "ClientHello PID did not match the named pipe client PID")
    else if not (uuid_equals platform hello.target_instance_id instance_id)
    then refuse negotiated (text "target_instance_mismatch")
        (text "ClientHello target instance did not match this bridge")
    else if not (supports_v1_0 hello.protocol)
    then refuse negotiated (text "protocol_incompatible")
        (text "Client protocol range does not include protocol 1.0")
    else record { accepted = true; limits = negotiated; error_code = []; error_message = [] }
