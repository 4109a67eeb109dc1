-- ===== src/AtMostOnce/Operations.antt =====
-- The parts of the methods of `at_most_once_store` in AviUtl2MCP.Bridge/src/at_most_once_store.cpp.
-- A read through a dangling pointer does
-- not occur: the entries of the heap are never freed.
use aviutl2mcp.Common.{
  ℕ, zero, suc, Bool, true, false, not, ◌||◌, Option, none, some, is_some, List, [], ◌∷◌, ◌++◌,
  Bytes, bytes_eq, ltb, leb, ◌==◌, if◌then◌else◌, length, get_elem?, set,
}
use aviutl2mcp.Common.Maps.{Map, find}
use aviutl2mcp.AtMostOnce.{
  MutationKey, key_Eq, MutationState, queued, completed, BeginDecision, accepted, attach, cached,
  request_id_conflict, result_evicted, bridge_busy, MutationRecord, Entry, Store, BeginResult,
  erase_cached,
}

unfoldable pub is_completed : MutationState → Bool
is_completed completed = true
is_completed _ = false

-- The test of the loop in `remove_expired`: the entry stays.
unfoldable pub stays : ℕ → Entry → Bool
unfolding is_completed
stays now entry = not (is_completed entry.state) || leb now entry.expires_at

abbrev keep_tombstone :
    MutationKey × ℕ → Map MutationKey ℕ × List MutationKey → Map MutationKey ℕ × List MutationKey
keep_tombstone tombstone (kept, lru) = (tombstone ∷ kept, lru)

-- The loop of `remove_expired` over the tombstones, with the list of cached responses.
unfoldable pub sweep :
    ℕ → List Entry → Map MutationKey ℕ → List MutationKey → Map MutationKey ℕ × List MutationKey
sweep now heap [] lru = ([], lru)
sweep now heap ((key, ref) ∷ rest) lru = elim (get_elem? heap ref) [
  | none ↦ keep_tombstone (key, ref) (sweep now heap rest lru)
  | some entry ↦
      let keep = keep_tombstone (key, ref) (sweep now heap rest lru) in
      let drop =
        sweep now heap rest (if entry.is_cached then erase_cached entry.key lru else lru) in
      if stays now entry then keep else drop
]

unfoldable pub remove_expired : ℕ → Store → Store
remove_expired now store =
    let (tombstones, lru) = sweep now store.heap store.tombstones store.response_lru in
    record store { tombstones = tombstones; response_lru = lru }

unfoldable pub touch_cache : Entry → Store → Store
touch_cache entry store =
    if entry.is_cached
    then record store { response_lru = entry.key ∷ erase_cached entry.key store.response_lru }
    else store

-- `response_lru.back()` and `pop_back()`.
unfoldable pub pop_back : List MutationKey → Option (MutationKey × List MutationKey)
pop_back [] = none
pop_back (k ∷ []) = some (k, [])
pop_back (k ∷ k' ∷ lru) = elim (pop_back (k' ∷ lru)) [
  | none ↦ none
  | some (last, front) ↦ some (last, k ∷ front)
]

-- The cached response of the entry goes.
unfoldable pub forget_response : MutationKey → Store → Store
forget_response key store = elim (find key store.tombstones) [
  | none ↦ store
  | some ref ↦ elim (get_elem? store.heap ref) [
    | none ↦ store
    | some entry ↦ record store {
      heap = set store.heap ref (record entry { response_json = none; is_cached = false });
    }
  ]
]

-- The `while` loop of `cache_response`; each round takes one key off the list.
unfoldable pub evict : ℕ → Store → Store
unfolding pop_back forget_response
evict zero store = store
evict (suc fuel) store =
    elim (ltb store.limits.maximum_cached_responses (length store.response_lru)) [
      | false ↦ store
      | true ↦ elim (pop_back store.response_lru) [
        | none ↦ store
        | some (evicted_key, lru) ↦
            evict fuel (forget_response evicted_key (record store { response_lru = lru }))
      ]
    ]

unfoldable pub cache_response : ℕ → Entry → Bytes → Store → Store
unfolding evict
cache_response ref entry response store =
    if store.limits.maximum_cached_responses == 0
      || ltb store.limits.maximum_response_bytes (length response)
    then store
    else evict (suc (length store.response_lru)) (record store {
      heap = set store.heap ref (record entry { response_json = some response; is_cached = true });
      response_lru = entry.key ∷ store.response_lru;
    })

unfoldable pub create_record : Entry → MutationRecord
create_record entry = record {
  state = entry.state;
  outcome = entry.outcome;
  revision = entry.revision;
  result_digest = entry.result_digest;
  response_json = entry.response_json;
}

abbrev pub answer : BeginDecision → Option ℕ → Option MutationRecord → BeginResult
answer decision token found = record { decision = decision; token = token; found = found }

-- `begin` where the key has a tombstone.
unfoldable pub begin_existing : ℕ → Entry → Bytes → Store → Store × BeginResult
unfolding is_completed touch_cache create_record
begin_existing ref entry payload_hash store =
    if not (bytes_eq entry.payload_hash payload_hash)
    then (store, answer request_id_conflict none none)
    else if not (is_completed entry.state)
    then (store, answer attach (some ref) none)
    else if is_some entry.response_json
    then (touch_cache entry store, answer cached (some ref) (some (create_record entry)))
    else (store, answer result_evicted (some ref) (some (create_record entry)))

-- A fresh `mutation_entry`.
abbrev pub new_entry : MutationKey → Bytes → ℕ → Entry
new_entry key payload_hash expires_at = record {
  key = key;
  payload_hash = payload_hash;
  expires_at = expires_at;
  state = queued;
  outcome = [];
  revision = [];
  result_digest = [];
  response_json = none;
  is_cached = false;
}

-- `begin` under the mutex, behind `remove_expired`.
unfoldable pub begin_locked : ℕ → MutationKey → Bytes → Store → Store × BeginResult
unfolding begin_existing
begin_locked expires_at key payload_hash store = elim (find key store.tombstones) [
  | some ref ↦ elim (get_elem? store.heap ref) [
    | none ↦ (store, answer bridge_busy none none)
    | some entry ↦ begin_existing ref entry payload_hash store
  ]
  | none ↦
      if leb store.limits.maximum_tombstones (length store.tombstones)
      then (store, answer bridge_busy none none)
      else (
        record store {
          heap = store.heap ++ (new_entry key payload_hash expires_at ∷ []);
          tombstones = (key, length store.heap) ∷ store.tombstones;
        },
        answer accepted (some (length store.heap)) none,
      )
]
