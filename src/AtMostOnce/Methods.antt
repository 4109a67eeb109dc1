-- ===== src/AtMostOnce/Methods.antt =====
-- The public methods of `at_most_once_store` in AviUtl2MCP.Bridge/src/at_most_once_store.cpp. A
-- method that holds the mutex is one step from a store to a store; the clock's reading is an
-- argument, in ticks. The waiting of `wait_for_completion` is the environment's: the method is
-- modelled as the test that it makes each time it wakes.
use aviutl2mcp.Common.{
  ℕ, ◌+◌, ◌*◌, Bool, true, false, not, ◌||◌, Option, none, some, [], Bytes, ltb, ◌==◌,
  if◌then◌else◌, length, get_elem?, set, is_empty, Exception, Result, ok, err, ◌>>=◌, ◌>>◌,
  throw_if, invalid_argument, logic_error,
}
use aviutl2mcp.Ipc.Frame.{calculate_sha256}
use aviutl2mcp.Platform.{Platform, uuid_equals, is_nonzero_uuid}
use aviutl2mcp.AtMostOnce.{
  MutationKey, MutationState, queued, executing, completed, request_expired, MutationRecord, Limits,
  Entry, Store, BeginResult, is_lower_sha256, get_uuid_v7_time, maximum_request_age,
  maximum_future_skew,
}
use aviutl2mcp.AtMostOnce.Operations.{
  is_completed, remove_expired, cache_response, create_record, answer, begin_locked,
}

-- The constructor.
unfoldable pub create : Platform → Bytes → Limits → Result Store
create platform server_epoch limits = do
  throw_if (not (is_nonzero_uuid platform server_epoch))
      (invalid_argument "at-most-once server epoch must be a nonzero UUID")
  throw_if (limits.maximum_tombstones == 0 || limits.maximum_response_bytes == 0)
      (invalid_argument "at-most-once limits and clock must be valid")
  ok (record {
    server_epoch = server_epoch;
    limits = limits;
    heap = [];
    tombstones = [];
    response_lru = [];
  })

-- The test of `begin` on the clock.
unfoldable pub outside_window : Platform → ℕ → ℕ → Bool
outside_window platform request_time now =
    ltb (request_time + maximum_request_age * platform.ticks_per_ms) now
    || ltb (now + maximum_future_skew * platform.ticks_per_ms) request_time

unfoldable pub begin_at : Platform → ℕ → MutationKey → Bytes → ℕ → Store → Store × BeginResult
begin_at platform now key payload_hash request_time store =
    if outside_window platform request_time now
    then (store, answer request_expired none none)
    else begin_locked (request_time + maximum_request_age * platform.ticks_per_ms) key payload_hash
        (remove_expired now store)

-- The argument tests of `begin`.
unfoldable pub invalid_arguments : Platform → MutationKey → Bytes → Store → Bool
invalid_arguments platform key payload_hash store =
    not (uuid_equals platform key.server_epoch store.server_epoch)
    || (not (is_nonzero_uuid platform key.client_instance_id) || not (is_lower_sha256 payload_hash))

unfoldable pub begin : Platform → ℕ → MutationKey → Bytes → Store → Result (Store × BeginResult)
begin platform now key payload_hash store = do
  throw_if (invalid_arguments platform key payload_hash store)
      (invalid_argument "at-most-once key or payload hash is invalid")
  elim (get_uuid_v7_time key.request_id) [
    | none ↦ ok (store, answer request_expired none none)
    | some milliseconds ↦
        ok (begin_at platform now key payload_hash (milliseconds * platform.ticks_per_ms) store)
  ]

-- The entry of a valid token.
unfoldable pub entry_of : Option ℕ → Exception → Store → Result (ℕ × Entry)
entry_of none e store = err e
entry_of (some ref) e store = elim (get_elem? store.heap ref) [
  | none ↦ err e
  | some entry ↦ ok (ref, entry)
]

unfoldable pub is_queued : MutationState → Bool
is_queued queued = true
is_queued _ = false

unfoldable pub mark_executing : Option ℕ → Store → Result Store
unfolding entry_of is_queued
mark_executing token store = do
  (ref, entry) ← entry_of token (invalid_argument "mutation token is invalid") store
  throw_if (not (is_queued entry.state)) (logic_error "mutation was not queued")
  ok (record store { heap = set store.heap ref (record entry { state = executing }) })

-- The entry that `complete` writes before it caches the response.
abbrev pub finished : Entry → Bytes → Bytes → Bytes → Entry
finished entry outcome revision digest = record entry {
  state = completed;
  outcome = outcome;
  revision = revision;
  result_digest = digest;
}

unfoldable pub complete : Platform → Option ℕ → Bytes → Bytes → Bytes → Store → Result Store
unfolding entry_of is_completed
complete platform token outcome revision response_json store = do
  (ref, entry) ← entry_of token (invalid_argument "mutation completion is invalid") store
  throw_if (is_empty outcome || is_empty response_json)
      (invalid_argument "mutation completion is invalid")
  digest ← calculate_sha256 platform.sha256 response_json
  throw_if (is_completed entry.state) (logic_error "mutation was already completed")
  let done = finished entry outcome revision digest
  ok (cache_response ref done response_json (record store { heap = set store.heap ref done }))

-- `none` where the mutation is not completed: the method waits on, or gives up at its timeout.
unfoldable pub wait_for_completion : Option ℕ → ℕ → Store → Result (Option MutationRecord)
unfolding entry_of is_completed create_record
wait_for_completion token timeout store = do
  (ref, entry) ← entry_of token (invalid_argument "mutation wait arguments are invalid") store
  throw_if (timeout == 0) (invalid_argument "mutation wait arguments are invalid")
  ok (if is_completed entry.state then some (create_record entry) else none)

unfoldable pub tombstone_count : Store → ℕ
tombstone_count store = length store.tombstones

unfoldable pub cached_response_count : Store → ℕ
cached_response_count store = length store.response_lru
