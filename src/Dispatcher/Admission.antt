-- ===== src/Dispatcher/Admission.antt =====
-- What `dispatch` of request_dispatcher.cpp leaves behind in the store, the registry and the gate.
use aviutl2mcp.Common.{
  ℕ, ◌+◌, ◌*◌, ◌≡◌, refl, true, false, Option, none, some, Bytes, length, get_elem?, get_elem?-last,
  Bool-cases, Option-cases, inl, inr, arith, text, ok,
}
use aviutl2mcp.Common.Maps.{find}
use aviutl2mcp.Platform.{Platform}
use aviutl2mcp.Cancellation.{register_request}
use aviutl2mcp.AtMostOnce.{
  MutationKey, key_Eq, queued, Entry, Store, BeginResult, accepted, get_uuid_v7_time,
  maximum_request_age, key_eq_refl,
}
use aviutl2mcp.AtMostOnce.Operations.{begin_locked, begin_existing, remove_expired, new_entry}
use aviutl2mcp.AtMostOnce.Methods.{begin, begin_at, invalid_arguments, outside_window}
use aviutl2mcp.Dispatcher.{
  OperationRequest, ErrorReply, error_reply, Dispatcher, create_error, early_reply,
  register_operation, continue_mutation, dispatch,
}

abbrev pub key_of : Dispatcher → (client_instance_id : Bytes) → OperationRequest → MutationKey
key_of dispatcher client_instance_id request = record {
  server_epoch = dispatcher.server_epoch;
  client_instance_id = client_instance_id;
  request_id = request.request_id;
}

-- The mutation of the key is queued in the store, under this token.
pub record IsQueued (key : MutationKey) (token : Option ℕ) (store : Store) : Type 0 where
  pub ref : ℕ
  pub entry : Entry
  pub token_is : token ≡ some ref
  pub tombstone : find key store.tombstones ≡ some ref
  pub held : get_elem? store.heap ref ≡ some entry
  pub state_is : entry.state ≡ queued

begin_locked-IsQueued :
    (expires_at : ℕ) (key : MutationKey) (payload_hash : Bytes) (store store' : Store)
    (begun : BeginResult)
    → begin_locked expires_at key payload_hash store ≡ (store', begun)
    → begun.decision ≡ accepted
    → IsQueued key begun.token store'
unfolding begin_locked find begin_existing
begin_locked-IsQueued expires_at key payload_hash store store' begun h a = record {
  ref = length store.heap;
  entry = new_entry key payload_hash expires_at;
  token_is = ground arith;
  tombstone = ground (arith, key_eq_refl key);
  held = ground (arith, get_elem?-last store.heap (new_entry key payload_hash expires_at));
  state_is = refl;
}

pub begin-IsQueued :
    (platform : Platform) (now : ℕ) (key : MutationKey) (payload_hash : Bytes)
    (store store' : Store) (begun : BeginResult)
    → begin platform now key payload_hash store ≡ ok (store', begun)
    → begun.decision ≡ accepted
    → IsQueued key begun.token store'
unfolding begin begin_at
begin-IsQueued platform now key payload_hash store store' begun h a =
    elim (Bool-cases (invalid_arguments platform key payload_hash store)) [
      | inl bad ↦ absurd (ground arith)
      | inr good ↦ elim (Option-cases (get_uuid_v7_time key.request_id)) [
        | inl undated ↦ absurd (ground arith)
        | inr (ms, time) ↦
            elim (Bool-cases (outside_window platform (ms * platform.ticks_per_ms) now)) [
              | inl out ↦ absurd (ground arith)
              | inr within ↦
                  begin_locked-IsQueued
                    (ms * platform.ticks_per_ms + maximum_request_age * platform.ticks_per_ms) key
                    payload_hash (remove_expired now store) store' begun (ground arith) a
            ]
      ]
    ]

module _ (platform : Platform) (dump : ErrorReply → Bytes) where
  -- Suppose the store accepts a mutation whose request id is active in the registry already. Then
  -- `dispatch` answers that the id is active and was not started, and leaves the mutation queued in
  -- the store; nothing has been put on the gate that could execute or complete it.
  pub dispatch_strands_mutation :
      (now : ℕ) (client_instance_id payload_hash : Bytes) (request : OperationRequest)
      (dispatcher : Dispatcher) (store' : Store) (begun : BeginResult)
      → begin platform now
          (record {
            server_epoch = dispatcher.server_epoch;
            client_instance_id = client_instance_id;
            request_id = request.request_id;
          })
          payload_hash
          dispatcher.mutations
        ≡ ok (store', begun)
      → begun.decision ≡ accepted
      → (register_request request.request_id dispatcher.cancellations).1 ≡ false
      → (dispatch platform dump true now client_instance_id payload_hash request dispatcher
          ≡ ok (
            record dispatcher { mutations = store' },
            some (
                error_reply (
                  create_error request
                    (text "request_id_conflict")
                    (text "Request ID is already active")
                    (text "not_started")
                    false
                    none
                    dispatcher.revisions)),
          ))
        × IsQueued
            (record {
              server_epoch = dispatcher.server_epoch;
              client_instance_id = client_instance_id;
              request_id = request.request_id;
            })
            begun.token
            store'
  unfolding dispatch continue_mutation early_reply register_operation
  dispatch_strands_mutation now client_instance_id payload_hash request dispatcher store' begun h a
        active =
      let held = begin-IsQueued platform now _ payload_hash dispatcher.mutations store' begun h a in
      (rw (h, continue_mutation, a, held.token_is, a, active) refl, held)
