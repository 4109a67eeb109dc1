-- ===== src/Dispatcher/Delivery.antt =====
-- What `dispatch` of AviUtl2MCP.Bridge/src/request_dispatcher.cpp puts on the gate where the answer is
-- to come.
use aviutl2mcp.Common.{
  ℕ, ◌+◌, ◌*◌, ◌≡◌, refl, Bool, true, false, ◌&&◌, Option, none, some, is_some, Bytes,
  if◌then◌else◌, Bool-cases, Option-cases, inl, inr, ◌⊎◌, arith, Result, ok, >>=-eq-ok,
}
use aviutl2mcp.Platform.{Platform}
use aviutl2mcp.Cancellation.{register_request}
use aviutl2mcp.AtMostOnce.{
  BeginDecision, MutationRecord, attach, cached, request_id_conflict, request_expired,
  result_evicted, bridge_busy, MutationKey, key_Eq, Store, BeginResult, accepted, get_uuid_v7_time,
  maximum_request_age,
}
use aviutl2mcp.AtMostOnce.Operations.{begin_locked, begin_existing, remove_expired}
use aviutl2mcp.AtMostOnce.Methods.{begin, begin_at, invalid_arguments, outside_window}
use aviutl2mcp.Revisions.{Tracker}
use aviutl2mcp.Dispatcher.{
  OperationRequest, ErrorReply, Reply, Dispatcher, early_reply, attach_request, register_operation,
  is_attach, continue_mutation, dispatch,
}
use aviutl2mcp.Dispatcher.Admission.{IsQueued, key_of, begin-IsQueued}
use aviutl2mcp.Dispatcher.Commands.{
  own_command, waiting_command, with_command, Owes, attach_request-Owes, Registers,
  register_operation-Owes,
}

-- A mutation that is attached to is one that the store has.
begin_locked-attach :
    (expires_at : ℕ) (key : MutationKey) (payload_hash : Bytes) (store store' : Store)
    (begun : BeginResult)
    → begin_locked expires_at key payload_hash store ≡ (store', begun)
    → begun.decision ≡ attach
    → is_some begun.token ≡ true
unfolding begin_locked begin_existing
begin_locked-attach expires_at key payload_hash store store' begun h a = ground arith

begin-attach :
    (platform : Platform) (now : ℕ) (key : MutationKey) (payload_hash : Bytes)
    (store store' : Store) (begun : BeginResult)
    → begin platform now key payload_hash store ≡ ok (store', begun)
    → begun.decision ≡ attach
    → is_some begun.token ≡ true
unfolding begin begin_at
begin-attach platform now key payload_hash store store' begun h a =
    elim (Bool-cases (invalid_arguments platform key payload_hash store)) [
      | inl bad ↦ absurd (ground arith)
      | inr good ↦ elim (Option-cases (get_uuid_v7_time key.request_id)) [
        | inl undated ↦ absurd (ground arith)
        | inr (ms, time) ↦
            elim (Bool-cases (outside_window platform (ms * platform.ticks_per_ms) now)) [
              | inl out ↦ absurd (ground arith)
              | inr within ↦
                  begin_locked-attach
                    (ms * platform.ticks_per_ms + maximum_request_age * platform.ticks_per_ms) key
                    payload_hash (remove_expired now store) store' begun (ground arith) a
            ]
      ]
    ]

module _ (platform : Platform) (dump : ErrorReply → Bytes) where
  -- How `dispatch` ends where it returns: the answer is ready and the gate as it was; or the request has
  -- been registered and its own command stands at the end of the gate's queue, for a mutation under the
  -- token of the entry that the store has queued for it; or the store has the mutation already, and the
  -- command at the end waits for it.
  pub data Dispatched (is_mutating : Bool) (now : ℕ) (client_instance_id payload_hash : Bytes)
      (request : OperationRequest) (dispatcher dispatcher' : Dispatcher) (reply : Option Reply)
      : Type 0 where
    answers :
        (ready : Reply)
        → reply ≡ some ready
        → dispatcher'.gate ≡ dispatcher.gate
        → Dispatched is_mutating now client_instance_id payload_hash request dispatcher dispatcher'
            reply
    runs :
        reply ≡ none
        → is_mutating ≡ false
        → (register_request request.request_id dispatcher.cancellations).1 ≡ true
        → dispatcher' ≡ record dispatcher {
          cancellations = (register_request request.request_id dispatcher.cancellations).0;
          gate = with_command (own_command request none) dispatcher.gate;
        }
        → Dispatched is_mutating now client_instance_id payload_hash request dispatcher dispatcher'
            reply
    begins :
        (store' : Store) (begun : BeginResult)
        → reply ≡ none
        → is_mutating ≡ true
        → begin platform now
            (key_of dispatcher client_instance_id request)
            payload_hash
            dispatcher.mutations
          ≡ ok (store', begun)
        → begun.decision ≡ accepted
        → IsQueued (key_of dispatcher client_instance_id request) begun.token store'
        → (register_request request.request_id dispatcher.cancellations).1 ≡ true
        → dispatcher' ≡ record dispatcher {
          mutations = store';
          cancellations = (register_request request.request_id dispatcher.cancellations).0;
          gate = with_command (own_command request begun.token) dispatcher.gate;
        }
        → Dispatched is_mutating now client_instance_id payload_hash request dispatcher dispatcher'
            reply
    waits :
        (store' : Store) (begun : BeginResult)
        → reply ≡ none
        → is_mutating ≡ true
        → begin platform now
            (key_of dispatcher client_instance_id request)
            payload_hash
            dispatcher.mutations
          ≡ ok (store', begun)
        → begun.decision ≡ attach
        → is_some begun.token ≡ true
        → dispatcher' ≡ record dispatcher {
          mutations = store';
          gate = with_command (waiting_command request begun.token) dispatcher.gate;
        }
        → Dispatched is_mutating now client_instance_id payload_hash request dispatcher dispatcher'
            reply

  -- A decision that does not answer at once.
  early_reply-none :
      (request : OperationRequest) (decision : BeginDecision) (found : Option MutationRecord)
      (revisions : Tracker)
      → early_reply request decision found revisions ≡ ok none
      → (decision ≡ accepted) ⊎ (decision ≡ attach)
  unfolding early_reply
  early_reply-none request accepted found revisions e = inl refl
  early_reply-none request attach found revisions e = inr refl
  early_reply-none request cached none revisions e = absurd (ground (arith, e))
  early_reply-none request cached (some known) revisions e = absurd (ground (arith, e))
  early_reply-none request request_id_conflict found revisions e = absurd (ground (arith, e))
  early_reply-none request request_expired found revisions e = absurd (ground (arith, e))
  early_reply-none request result_evicted none revisions e = absurd (ground (arith, e))
  early_reply-none request result_evicted (some known) revisions e = absurd (ground (arith, e))
  early_reply-none request bridge_busy found revisions e = absurd (ground (arith, e))

  module _ (now : ℕ) (client_instance_id payload_hash : Bytes) (request : OperationRequest)
      (store' : Store) (begun : BeginResult) (dispatcher dispatcher' : Dispatcher)
      (started : begin platform now
          (key_of dispatcher client_instance_id request)
          payload_hash
          dispatcher.mutations
        ≡ ok (store', begun)) where
    -- What is claimed of the end of `dispatch` for a mutation.
    IsDispatched : Option Reply → Type 0
    IsDispatched =
        Dispatched true now client_instance_id payload_hash request dispatcher dispatcher'

    register-Dispatched :
        (reply : Option Reply)
        → begun.decision ≡ accepted
        → register_operation platform dump request begun.token
            (record dispatcher { mutations = store' })
          ≡ ok (dispatcher', reply)
        → IsDispatched reply
    unfolding Owes Registers IsDispatched
    register-Dispatched (some reply) decided h =
        let (gate, registers) =
          register_operation-Owes platform dump request begun.token
            (record dispatcher { mutations = store' }) dispatcher' (some reply) h in
        answers reply refl gate
    register-Dispatched none decided h =
        let (behind, registers) =
          register_operation-Owes platform dump request begun.token
            (record dispatcher { mutations = store' }) dispatcher' none h in
        begins store' begun refl refl started decided
          (begin-IsQueued platform now (key_of dispatcher client_instance_id request) payload_hash
            dispatcher.mutations store' begun started decided)
          registers behind

    attach-Dispatched :
        (reply : Option Reply)
        → begun.decision ≡ attach
        → attach_request request begun.token (record dispatcher { mutations = store' })
          ≡ ok (dispatcher', reply)
        → IsDispatched reply
    unfolding Owes IsDispatched
    attach-Dispatched (some reply) decided h = answers reply refl (
        attach_request-Owes request begun.token (record dispatcher { mutations = store' })
          dispatcher' (some reply) h)
    attach-Dispatched none decided h =
        waits store' begun refl refl started decided
          (begin-attach platform now (key_of dispatcher client_instance_id request) payload_hash
            dispatcher.mutations store' begun started decided)
          (attach_request-Owes request begun.token (record dispatcher { mutations = store' })
            dispatcher' none h)

    -- Behind `begin`, with its decision.
    continue_mutation-Dispatched :
        (reply : Option Reply)
        → continue_mutation platform dump request begun (record dispatcher { mutations = store' })
          ≡ ok (dispatcher', reply)
        → IsDispatched reply
    unfolding continue_mutation IsDispatched
    continue_mutation-Dispatched reply h =
        let (early, answered, rest) =
          >>=-eq-ok (early_reply request begun.decision begun.found dispatcher.revisions) _ h in
        by early answered rest
      where
        by :
            (early : Option Reply)
            → early_reply request begun.decision begun.found dispatcher.revisions ≡ ok early
            → (elim early as (λ e. Result (Dispatcher × Option Reply)) [
              | some ready ↦ ok (record dispatcher { mutations = store' }, some ready)
              | none ↦
                  if is_some begun.token && is_attach begun.decision
                  then attach_request request begun.token (record dispatcher { mutations = store' })
                  else register_operation platform dump request begun.token
                      (record dispatcher { mutations = store' })
            ])
              ≡ ok (dispatcher', reply)
            → Dispatched true now client_instance_id payload_hash request dispatcher dispatcher'
                reply
        by (some ready) answered e = answers ready (ground (arith, e)) (ground (arith, e))
        by none answered e =
            elim (early_reply-none request begun.decision begun.found dispatcher.revisions
              answered) [
                | inl decided ↦ register-Dispatched reply decided (ground (arith, e, decided))
                | inr decided ↦ attach-Dispatched reply decided (
                    ground (
                      arith,
                      e,
                      decided,
                      begin-attach platform now (key_of dispatcher client_instance_id request)
                          payload_hash dispatcher.mutations store' begun started decided,
                    ))
              ]

  -- Whenever `dispatch` returns: either the answer is ready, and the gate is as it was; or the answer is
  -- to come, and the queue is longer by the one command that will give it. That is the request's own
  -- command, and the request has been registered, where it reads only or the store has accepted its
  -- mutation, which is queued under the command's token; it is a command that waits for the token's
  -- mutation where the store has attached the request to it. Besides only the store has changed, as it
  -- has begun the mutation.
  pub dispatch-Dispatched :
      (is_mutating : Bool) (now : ℕ) (client_instance_id payload_hash : Bytes)
      (request : OperationRequest) (dispatcher dispatcher' : Dispatcher) (reply : Option Reply)
      → dispatch platform dump is_mutating now client_instance_id payload_hash request dispatcher
        ≡ ok (dispatcher', reply)
      → Dispatched is_mutating now client_instance_id payload_hash request dispatcher dispatcher'
          reply
  unfolding dispatch Owes Registers IsDispatched
  dispatch-Dispatched false now client_instance_id payload_hash request dispatcher dispatcher' none
        h =
      let (behind, registers) =
        register_operation-Owes platform dump request none dispatcher dispatcher' none h in
      runs refl refl registers behind
  dispatch-Dispatched false now client_instance_id payload_hash request dispatcher dispatcher'
        (some reply) h =
      let (gate, registers) =
        register_operation-Owes platform dump request none dispatcher dispatcher' (some reply) h in
      answers reply refl gate
  dispatch-Dispatched true now client_instance_id payload_hash request dispatcher dispatcher' reply
        h =
      let ((store, begun), started, rest) =
        >>=-eq-ok
          (begin platform now (key_of dispatcher client_instance_id request) payload_hash
            dispatcher.mutations)
          _ h in
      continue_mutation-Dispatched now client_instance_id payload_hash request store begun
        dispatcher dispatcher' started reply rest
