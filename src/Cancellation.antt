-- ===== src/Cancellation.antt =====
-- AviUtl2MCP.Bridge/src/cancellation_registry.cpp: the requests that are under way, and the race
-- between `cancel` and the commit point. Every method holds the mutex from end to end, so a method
-- is one step; it returns the registry behind it beside its result.
pub mod Lifecycle
use aviutl2mcp.Common.{
  ℕ, ◌+◌, Bool, true, false, not, ◌||◌, Option, none, some, List, [], ◌∷◌, Bytes, if◌then◌else◌,
  length, map,
}
use aviutl2mcp.Common.Maps.{bytes_Eq, Map, find, assign, erase}
use aviutl2mcp.Common.Hex.{hex}

pub data RequestState : Type 0 where
  queued executing committed cancelled : RequestState

pub data CancelStatus : Type 0 where
  cancelled too_late not_found : CancelStatus

pub record CancelResult : Type 0 where
  pub status : CancelStatus
  pub response_will_follow : Bool

-- `requests_`.
abbrev pub Registry : Type 0
Registry = Map Bytes RequestState

-- `create_key`.
unfoldable pub create_key : Bytes → Bytes
create_key request_id = hex request_id

-- `requests_.find(create_key(request_id))`.
unfoldable pub state_of : Bytes → Registry → Option RequestState
state_of request_id registry = find (create_key request_id) registry

-- `emplace(...).second`.
unfoldable pub register_request : Bytes → Registry → Registry × Bool
register_request request_id registry = elim (state_of request_id registry) [
  | none ↦ ((create_key request_id, RequestState.queued) ∷ registry, true)
  | some state ↦ (registry, false)
]

-- `found->second = state`.
abbrev pub set_state : Bytes → RequestState → Registry → Registry
set_state request_id state registry = assign (create_key request_id) state registry

unfoldable pub try_begin : Bytes → Registry → Registry × Bool
try_begin request_id registry = elim (state_of request_id registry) [
  | none ↦ (registry, false)
  | some RequestState.cancelled ↦ (registry, false)
  | some RequestState.queued ↦ (set_state request_id RequestState.executing registry, true)
  | some RequestState.executing ↦ (registry, false)
  | some RequestState.committed ↦ (registry, false)
]

unfoldable pub try_reach_commit_point : Bytes → Registry → Registry × Bool
try_reach_commit_point request_id registry = elim (state_of request_id registry) [
  | none ↦ (registry, false)
  | some RequestState.cancelled ↦ (registry, false)
  | some RequestState.committed ↦ (registry, true)
  | some RequestState.queued ↦ (registry, false)
  | some RequestState.executing ↦ (set_state request_id RequestState.committed registry, true)
]

unfoldable pub is_cancelled : Bytes → Registry → Bool
is_cancelled request_id registry = elim (state_of request_id registry) [
  | some RequestState.cancelled ↦ true
  | _ ↦ false
]

unfoldable pub cancel : Bytes → Registry → Registry × CancelResult
cancel request_id registry = elim (state_of request_id registry) [
  | none ↦ (registry, record { status = not_found; response_will_follow = false })
  | some RequestState.committed ↦
      (registry, record { status = too_late; response_will_follow = true })
  | some state ↦ (
    set_state request_id RequestState.cancelled registry,
    record { status = CancelStatus.cancelled; response_will_follow = true },
  )
]

unfoldable pub complete : Bytes → Registry → Registry
complete request_id registry = erase (create_key request_id) registry

-- The loop's body.
unfoldable pub cancel_state : RequestState → RequestState
cancel_state RequestState.committed = RequestState.committed
cancel_state state = RequestState.cancelled

unfoldable pub cancel_all : Registry → Registry
cancel_all [] = []
cancel_all ((key, state) ∷ registry) = (key, cancel_state state) ∷ cancel_all registry

unfoldable pub count : Registry → ℕ
count registry = length registry
