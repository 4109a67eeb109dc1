-- ===== src/Examples/Mutations.antt =====
-- Mutations of AviUtl2MCP.Bridge/src/at_most_once_store.cpp, on a platform where a UUID text is any
-- text and stands for its length, and where a digest is the text itself.
use aviutl2mcp.Common.{
  ℕ, zero, suc, ◌≤◌, ◌≡◌, ◌≢◌, refl, none, some, [], ◌∷◌, Bytes, bytes_eq, length, ok, arith,
}
use aviutl2mcp.Common.Maps.{find}
use aviutl2mcp.Platform.{Platform, c_str, try_parse_uuid, uuid_equals, is_nonzero_uuid}
use aviutl2mcp.AtMostOnce.{
  MutationKey, key_eq, Limits, Store, accepted, attach, is_lower_hex, is_lower_sha256, join_bytes,
  get_uuid_v7_time,
}
use aviutl2mcp.AtMostOnce.Operations.{
  is_completed, stays, sweep, remove_expired, begin_existing, begin_locked, answer, new_entry,
}
use aviutl2mcp.AtMostOnce.Methods.{
  create, outside_window, begin_at, invalid_arguments, begin, tombstone_count,
}
use aviutl2mcp.AtMostOnce.Steps.{begins, run}
use aviutl2mcp.AtMostOnce.Bounds.{tombstone_count_bound}
use aviutl2mcp.AtMostOnce.Once.{accepted_once}

abbrev pub a_platform : Platform
a_platform = record {
  sha256 = λ bytes. bytes;
  uuid_from_string = λ bytes. some (length bytes);
  ticks_per_ms = 1;
}

abbrev pub repeated : ℕ → Bytes
repeated zero = []
repeated (suc n) = b'a' ∷ repeated n

-- Made at 256 ms.
abbrev pub a_key : MutationKey
a_key = record {
  server_epoch = b'e' ∷ [];
  client_instance_id = b'c' ∷ [];
  request_id = 0 ∷ 0 ∷ 0 ∷ 0 ∷ 1 ∷ 0 ∷ 0x70 ∷ 0 ∷ 0x80 ∷ 0 ∷ 0 ∷ 0 ∷ 0 ∷ 0 ∷ 0 ∷ 1 ∷ [];
}

abbrev some_limits : Limits
some_limits = record {
  maximum_tombstones = 2;
  maximum_cached_responses = 1;
  maximum_response_bytes = 100;
}

abbrev pub fresh_store : Store
fresh_store = record {
  server_epoch = b'e' ∷ [];
  limits = some_limits;
  heap = [];
  tombstones = [];
  response_lru = [];
}

abbrev pub begun_store : Store
begun_store = record fresh_store {
  heap = new_entry a_key (repeated 64) 600256 ∷ [];
  tombstones = (a_key, 0) ∷ [];
}

store-created : create a_platform (b'e' ∷ []) some_limits ≡ ok fresh_store
unfolding create is_nonzero_uuid try_parse_uuid c_str
store-created = refl

pub key-begun :
    begin a_platform 1000 a_key (repeated 64) fresh_store
    ≡ ok (begun_store, answer accepted (some 0) none)
unfolding begin invalid_arguments uuid_equals is_nonzero_uuid try_parse_uuid c_str is_lower_sha256
    is_lower_hex get_uuid_v7_time join_bytes begin_at outside_window begin_locked remove_expired
    sweep find
key-begun = refl

key-begun_again :
    begin a_platform 2000 a_key (repeated 64) begun_store
    ≡ ok (begun_store, answer attach (some 0) none)
unfolding begin invalid_arguments uuid_equals is_nonzero_uuid try_parse_uuid c_str is_lower_sha256
    is_lower_hex get_uuid_v7_time join_bytes begin_at outside_window begin_locked remove_expired
    sweep find stays begin_existing bytes_eq key_eq is_completed
key-begun_again = refl

accepted_once_example : (answer attach (some 0) none).decision ≢ accepted
unfolding run
accepted_once_example =
    accepted_once a_platform (b'e' ∷ []) some_limits fresh_store [] [] a_key (repeated 64)
      (repeated 64) 1000 2000 begun_store begun_store (answer accepted (some 0) none)
      (answer attach (some 0) none) store-created key-begun refl tt (omega arith) key-begun_again

tombstone_count_bound_example :
    tombstone_count (run a_platform fresh_store (begins 1000 a_key (repeated 64) ∷ [])) ≤ 2
tombstone_count_bound_example =
    tombstone_count_bound a_platform (b'e' ∷ []) some_limits fresh_store
      (begins 1000 a_key (repeated 64) ∷ []) store-created
