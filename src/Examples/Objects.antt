-- ===== src/Examples/Objects.antt =====
-- Objects and a locator of AviUtl2MCP.Bridge/src/locator_resolver.cpp.
use aviutl2mcp.Common.{◌≡◌, refl, true, [], ◌∷◌, bytes_eq, ok}
use aviutl2mcp.Common.Ints.{pos}
use aviutl2mcp.Ipc.Header.{write_le, write_uint32_le}
use aviutl2mcp.Ipc.Utf8.{validate_utf8, validate_loop, character}
use aviutl2mcp.Ipc.Frame.{append_chunks, calculate_hash, calculate_sha256}
use aviutl2mcp.Platform.{c_str, try_parse_uuid, uuid_equals, is_nonzero_uuid}
use aviutl2mcp.Locators.{
  ObjectCandidate, ObjectLocator, append_string, append_items, append_effects, validate_candidate,
  differs, calculate_effect_signature, matches, create_object_locator, resolve_object_locator,
}
use aviutl2mcp.Locators.Resolution.{
  classify, all_matches, resolve_object_locator-classify, matches-create_object_locator,
}
use aviutl2mcp.Examples.Mutations.{a_platform}

abbrev an_object : ObjectCandidate
an_object = record {
  scene_id = pos 0;
  layer = pos 1;
  start_frame = pos 1;
  end_frame = pos 30;
  name = b'n' ∷ [];
  alias = b'a' ∷ b'b' ∷ [];
  effects =
      record { name = b'e' ∷ []; items = record { name = b'i' ∷ []; type = b't' ∷ [] } ∷ [] } ∷ [];
}

abbrev a_locator : ObjectLocator
a_locator = record {
  instance_id = b'b' ∷ [];
  project_generation = b'g' ∷ [];
  scene_id = pos 0;
  layer = pos 1;
  start_frame = pos 1;
  end_frame = pos 30;
  name = b'n' ∷ [];
  alias_sha256 = b'a' ∷ b'b' ∷ [];
  effect_signature_sha256 =
      1 ∷ 0 ∷ 0 ∷ 0 ∷ b'e' ∷ 1 ∷ 0 ∷ 0 ∷ 0 ∷ 1 ∷ 0 ∷ 0 ∷ 0 ∷ b'i' ∷ 1 ∷ 0 ∷ 0 ∷ 0 ∷ b't' ∷ [];
}

locator-created : create_object_locator a_platform (b'b' ∷ []) (b'g' ∷ []) an_object ≡ ok a_locator
unfolding create_object_locator is_nonzero_uuid try_parse_uuid c_str validate_candidate
    validate_utf8 validate_loop character calculate_sha256 calculate_hash append_chunks
    calculate_effect_signature append_effects append_items append_string write_uint32_le write_le
locator-created = refl

objects-matched :
    all_matches a_platform a_locator 0 (record an_object { layer = pos 2 } ∷ an_object ∷ [])
    ≡ ok (1 ∷ [])
unfolding all_matches matches differs bytes_eq validate_candidate validate_utf8 validate_loop
    character calculate_sha256 calculate_hash append_chunks calculate_effect_signature
    append_effects append_items append_string write_uint32_le write_le
objects-matched = refl

same-uuid : uuid_equals a_platform (b'b' ∷ []) (b'b' ∷ []) ≡ true
unfolding uuid_equals try_parse_uuid c_str
same-uuid = refl

same-generation : uuid_equals a_platform (b'g' ∷ []) (b'g' ∷ []) ≡ true
unfolding uuid_equals try_parse_uuid c_str
same-generation = refl

matches-create_object_locator_example : matches a_platform a_locator an_object ≡ ok true
matches-create_object_locator_example =
    matches-create_object_locator a_platform (b'b' ∷ []) (b'g' ∷ []) an_object a_locator
      locator-created

resolve_object_locator-classify_example :
    resolve_object_locator a_platform a_locator
      (b'b' ∷ [])
      (b'g' ∷ [])
      (record an_object { layer = pos 2 } ∷ an_object ∷ [])
    ≡ ok (classify (1 ∷ []))
resolve_object_locator-classify_example =
    resolve_object_locator-classify a_platform a_locator (b'b' ∷ []) (b'g' ∷ [])
      (record an_object { layer = pos 2 } ∷ an_object ∷ []) (1 ∷ []) same-uuid same-generation
      objects-matched
