-- ===== src/AtMostOnce.antt =====
-- AviUtl2MCP.Bridge/src/at_most_once_store.cpp and include/aviutl2_mcp/at_most_once_store.h: the
-- store that makes a mutation run at most once. The types and the parts under
-- `at_most_once_store::implementation`.
pub mod Operations
pub mod Methods
pub mod Bounds
pub mod Heap
pub mod Steps
pub mod Once
pub mod Completion
pub mod Retention
use Prim.Native.Nat.{bit_or}
use aviutl2mcp.Common.{
  ℕ, zero, suc, ◌+◌, ◌*◌, ◌/◌, ◌%◌, ◌^◌, ◌≡◌, refl, Bool, true, false, not, ◌&&◌, ◌||◌, Option,
  none, some, List, [], ◌∷◌, Bytes, bytes_eq, eq_of-bytes_eq, bytes_eq_refl, ltb, leb, ◌==◌,
  if◌then◌else◌, length, get_or, arith,
}
use aviutl2mcp.Common.Maps.{Eq, Map, find}

pub record MutationKey : Type 0 where
  pub server_epoch : Bytes
  pub client_instance_id : Bytes
  pub request_id : Bytes

-- The defaulted `operator==`.
unfoldable pub key_eq : MutationKey → MutationKey → Bool
key_eq a b =
    bytes_eq a.server_epoch b.server_epoch
    && (bytes_eq a.client_instance_id b.client_instance_id && bytes_eq a.request_id b.request_id)

pub eq_of-key_eq : (a b : MutationKey) → key_eq a b ≡ true → a ≡ b
unfolding key_eq
eq_of-key_eq a b h = ground (
  arith,
  eq_of-bytes_eq a.server_epoch b.server_epoch,
  eq_of-bytes_eq a.client_instance_id b.client_instance_id,
  eq_of-bytes_eq a.request_id b.request_id,
)

pub key_eq_refl : (a : MutationKey) → key_eq a a ≡ true
unfolding key_eq
key_eq_refl a = ground (
  arith,
  bytes_eq_refl a.server_epoch,
  bytes_eq_refl a.client_instance_id,
  bytes_eq_refl a.request_id,
)

instance abbrev pub key_Eq : Eq MutationKey
key_Eq = record { beq = key_eq; eq_of_beq = eq_of-key_eq; beq_refl = key_eq_refl }

pub data MutationState : Type 0 where
  queued executing completed : MutationState

pub data BeginDecision : Type 0 where
  accepted attach cached request_id_conflict request_expired result_evicted bridge_busy :
      BeginDecision

pub record MutationRecord : Type 0 where
  pub state : MutationState
  pub outcome : Bytes
  pub revision : Bytes
  pub result_digest : Bytes
  pub response_json : Option Bytes

pub record Limits : Type 0 where
  pub maximum_tombstones : ℕ
  pub maximum_cached_responses : ℕ
  pub maximum_response_bytes : ℕ

-- `mutation_entry`. `cache_position` is the place of `key` in `response_lru`: see `erase_cached`.
pub record Entry : Type 0 where
  pub key : MutationKey
  pub payload_hash : Bytes
  pub expires_at : ℕ
  pub state : MutationState
  pub outcome : Bytes
  pub revision : Bytes
  pub result_digest : Bytes
  pub response_json : Option Bytes
  pub is_cached : Bool

-- `heap` holds every entry ever made; a `std::shared_ptr<mutation_entry>` is a position in it.
pub record Store : Type 0 where
  pub server_epoch : Bytes
  pub limits : Limits
  pub heap : List Entry
  pub tombstones : Map MutationKey ℕ
  pub response_lru : List MutationKey

pub record BeginResult : Type 0 where
  pub decision : BeginDecision
  pub token : Option ℕ
  pub found : Option MutationRecord

-- `response_lru.erase(entry->cache_position)`: a key stands in the list once.
unfoldable pub erase_cached : MutationKey → List MutationKey → List MutationKey
erase_cached key [] = []
erase_cached key (k ∷ lru) = if key_eq k key then lru else k ∷ erase_cached key lru

unfoldable pub is_lower_hex : Bytes → Bool
is_lower_hex [] = true
is_lower_hex (c ∷ cs) =
    ((leb b'0' c && leb c b'9') || (leb b'a' c && leb c b'f')) && is_lower_hex cs

unfoldable pub is_lower_sha256 : Bytes → Bool
is_lower_sha256 value = length value == 64 && is_lower_hex value

-- The loop of `get_uuid_v7_time` over the first `rounds` bytes from `index` on.
unfoldable pub join_bytes : ℕ → ℕ → Bytes → ℕ → ℕ
join_bytes zero index request_id milliseconds = milliseconds
join_bytes (suc rounds) index request_id milliseconds =
    join_bytes rounds (suc index) request_id
      (bit_or (milliseconds * 2 ^ 8 % 2 ^ 64) (get_or request_id index 0))

-- The time in milliseconds that a version 7 UUID begins with.
unfoldable pub get_uuid_v7_time : Bytes → Option ℕ
get_uuid_v7_time request_id =
    if not (get_or request_id 6 0 / 2 ^ 4 == 7) then none else some (join_bytes 6 0 request_id 0)

-- `10 min` and `5 min` in milliseconds.
abbrev pub maximum_request_age : ℕ
maximum_request_age = 10 * 60 * 1000

abbrev pub maximum_future_skew : ℕ
maximum_future_skew = 5 * 60 * 1000
