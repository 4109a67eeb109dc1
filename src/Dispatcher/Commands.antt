-- ===== src/Dispatcher/Commands.antt =====
-- The command that `register_operation` and `attach_request` of AviUtl2MCP.Bridge/src/request_dispatcher.cpp
-- put on the gate, where the answer is not ready.
use aviutl2mcp.Common.{
  ℕ, ◌≡◌, ◌≢◌, refl, ap, subst, true, Option, none, some, [], ◌∷◌, ◌++◌, Bytes, leb, length,
  Bool-cases, inl, inr, ◌⊎◌, arith, text, Result, ok, >>=-eq-ok,
}
use aviutl2mcp.Platform.{Platform}
use aviutl2mcp.Cancellation.{Registry, register_request}
use aviutl2mcp.AtMostOnce.{key_Eq, Store}
use aviutl2mcp.Gate.{Gate, QueuedCommand, EnqueueResult, busy, stopping, enqueue, try_enqueue}
use aviutl2mcp.Dispatcher.{
  OperationRequest, ErrorReply, Reply, error_reply, Callback, Dispatcher, create_error,
  run_operation, stop_operation, await_mutation, stop_awaiting, attach_request, refuse_operation,
  enqueue_operation, register_operation,
}

-- The command that executes the operation, the one that waits for another request's, and the gate with
-- one more command at its end.
abbrev pub own_command : OperationRequest → Option ℕ → QueuedCommand Callback
own_command request mutation = record {
  execute = run_operation request mutation;
  cancel = stop_operation request mutation;
}

abbrev pub waiting_command : OperationRequest → Option ℕ → QueuedCommand Callback
waiting_command request mutation = record {
  execute = await_mutation request mutation;
  cancel = stop_awaiting request;
}

abbrev pub with_command : QueuedCommand Callback → Gate Callback → Gate Callback
with_command command gate = record gate { queue = gate.queue ++ (command ∷ []) }

enqueued :
    (execute cancel : Callback) (gate gate' : Gate Callback) (answer : EnqueueResult)
    → try_enqueue (some execute) (some cancel) gate ≡ ok (gate', answer)
    → ((answer ≡ EnqueueResult.accepted)
        × (gate' ≡ with_command (record { execute = execute; cancel = cancel }) gate))
      ⊎ ((answer ≢ EnqueueResult.accepted) × (gate' ≡ gate))
unfolding try_enqueue enqueue
enqueued execute cancel gate gate' answer h = elim (Bool-cases gate.is_stopping) [
  | inl stops ↦ inr (λ e. ground arith, ground arith)
  | inr runs ↦ elim (Bool-cases (leb gate.maximum_queue_depth (length gate.queue))) [
    | inl full ↦ inr (λ e. ground arith, ground arith)
    | inr free ↦ inl (ground arith, ground arith)
  ]
]

pub ok-injective : {A : Type 0} {x y : A} → ok x ≡ ok y → x ≡ y
ok-injective e = cc

-- The answer is ready and the gate as before, or it is to come from the command.
unfoldable pub Owes :
    (command : QueuedCommand Callback) (registry : Registry)
    → Dispatcher
    → Dispatcher × Option Reply
    → Type 0
Owes command registry dispatcher (dispatcher', some reply) = dispatcher'.gate ≡ dispatcher.gate
Owes command registry dispatcher (dispatcher', none) =
    dispatcher'
    ≡ record dispatcher { cancellations = registry; gate = with_command command dispatcher.gate }

pub attach_request-Owes :
    (request : OperationRequest) (mutation : Option ℕ) (dispatcher dispatcher' : Dispatcher)
    (reply : Option Reply)
    → attach_request request mutation dispatcher ≡ ok (dispatcher', reply)
    → Owes
        (waiting_command request mutation)
        dispatcher.cancellations
        dispatcher
        (dispatcher', reply)
unfolding attach_request Owes
attach_request-Owes request mutation dispatcher dispatcher' reply h =
    let ((gate, answer), tried, rest) = >>=-eq-ok (try_enqueue _ _ dispatcher.gate) _ h in
    by gate answer (enqueued _ _ dispatcher.gate gate answer tried) rest
  where
    owes : Dispatcher × Option Reply → Type 0
    owes = Owes (waiting_command request mutation) dispatcher.cancellations dispatcher

    refused : Reply
    refused = error_reply (
        create_error request (text "bridge_busy") (text "Bridge queue is unavailable")
          (text "unknown") true none dispatcher.revisions)

    by :
        (gate : Gate Callback) (answer : EnqueueResult)
        → ((answer ≡ EnqueueResult.accepted)
            × (gate ≡ with_command (waiting_command request mutation) dispatcher.gate))
          ⊎ ((answer ≢ EnqueueResult.accepted) × (gate ≡ dispatcher.gate))
        → ◌≡◌ {A = Result (Dispatcher × Option Reply)}
            (ok (
              record dispatcher { gate = gate },
              elim answer as (λ a. Option Reply) [
                | EnqueueResult.accepted ↦ none
                | busy ↦ some refused
                | stopping ↦ some refused
              ],
            ))
            (ok (dispatcher', reply))
        → owes (dispatcher', reply)
    by gate EnqueueResult.accepted (inl (taken, grown)) e =
        subst owes (ok-injective e)
          (ap (λ (g : Gate Callback). record dispatcher { gate = g }) grown)
    by gate EnqueueResult.accepted (inr (refuses, same)) e = absurd (refuses refl)
    by gate busy (inl (taken, grown)) e = absurd (ground (arith, taken))
    by gate busy (inr (refuses, same)) e = subst owes (ok-injective e) same
    by gate stopping (inl (taken, grown)) e = absurd (ground (arith, taken))
    by gate stopping (inr (refuses, same)) e = subst owes (ok-injective e) same

module _ (platform : Platform) (dump : ErrorReply → Bytes) where
  refuse_operation-Owes :
      (command : QueuedCommand Callback) (registry : Registry) (request : OperationRequest)
      (mutation : Option ℕ) (code : Bytes) (dispatcher dispatcher' : Dispatcher)
      (reply : Option Reply)
      → refuse_operation platform dump request mutation code dispatcher ≡ ok (dispatcher', reply)
      → Owes command registry dispatcher (dispatcher', reply)
  unfolding refuse_operation Owes
  refuse_operation-Owes command registry request mutation code dispatcher dispatcher' reply h =
      let (store, completed, rest) =
        >>=-eq-ok
          (elim mutation as (λ m. Result Store) [ none ↦ ok dispatcher.mutations | some token ↦ _ ])
          _ h in
      subst (Owes command registry dispatcher) (ok-injective rest) refl

  enqueue_operation-Owes :
      (request : OperationRequest) (mutation : Option ℕ) (dispatcher dispatcher' : Dispatcher)
      (reply : Option Reply)
      → enqueue_operation platform dump request mutation dispatcher ≡ ok (dispatcher', reply)
      → Owes (own_command request mutation) dispatcher.cancellations dispatcher (dispatcher', reply)
  unfolding enqueue_operation
  enqueue_operation-Owes request mutation dispatcher dispatcher' reply h =
      let ((gate, answer), tried, rest) = >>=-eq-ok (try_enqueue _ _ dispatcher.gate) _ h in
      by gate answer (enqueued _ _ dispatcher.gate gate answer tried) rest
    where
      own : QueuedCommand Callback
      own = own_command request mutation

      by :
          (gate : Gate Callback) (answer : EnqueueResult)
          → ((answer ≡ EnqueueResult.accepted)
              × (gate ≡ with_command (own_command request mutation) dispatcher.gate))
            ⊎ ((answer ≢ EnqueueResult.accepted) × (gate ≡ dispatcher.gate))
          → (elim answer as (λ a. Result (Dispatcher × Option Reply)) [
            | EnqueueResult.accepted ↦ ok (record dispatcher { gate = gate }, none)
            | busy ↦ refuse_operation platform dump request mutation (text "bridge_busy") dispatcher
            | stopping ↦
                refuse_operation platform dump request mutation (text "bridge_stopping") dispatcher
          ])
            ≡ ok (dispatcher', reply)
          → Owes
              (own_command request mutation)
              dispatcher.cancellations
              dispatcher
              (dispatcher', reply)
      by gate EnqueueResult.accepted (inl (taken, grown)) e =
          subst (Owes (own_command request mutation) dispatcher.cancellations dispatcher)
            (ok-injective e)
            (unfold Owes in ap (λ (g : Gate Callback). record dispatcher { gate = g }) grown)
      by gate EnqueueResult.accepted (inr (refused, same)) e = absurd (refused refl)
      by gate busy tried e =
          refuse_operation-Owes _ _ request mutation _ dispatcher dispatcher' reply e
      by gate stopping tried e =
          refuse_operation-Owes _ _ request mutation _ dispatcher dispatcher' reply e

  -- The request has been registered where the answer is to come.
  unfoldable pub Registers :
      (request : OperationRequest) (dispatcher : Dispatcher) (reply : Option Reply) → Type 0
  Registers request dispatcher none =
      (register_request request.request_id dispatcher.cancellations).1 ≡ true
  Registers request dispatcher (some reply) = Unit

  pub register_operation-Owes :
      (request : OperationRequest) (mutation : Option ℕ) (dispatcher dispatcher' : Dispatcher)
      (reply : Option Reply)
      → register_operation platform dump request mutation dispatcher ≡ ok (dispatcher', reply)
      → Owes
          (own_command request mutation)
          (register_request request.request_id dispatcher.cancellations).0
          dispatcher
          (dispatcher', reply)
        × Registers request dispatcher reply
  unfolding register_operation Owes Registers
  register_operation-Owes request mutation dispatcher dispatcher' none h =
      let (registered, is_new) = register_request request.request_id dispatcher.cancellations in
      elim (Bool-cases is_new) [
        | inl new ↦ (
          enqueue_operation-Owes request mutation (record dispatcher { cancellations = registered })
              dispatcher' none (ground (arith, h, new)),
          new,
        )
        | inr active ↦ absurd (ground (arith, h, active))
      ]
  register_operation-Owes request mutation dispatcher dispatcher' (some reply) h =
      let (registered, is_new) = register_request request.request_id dispatcher.cancellations in
      elim (Bool-cases is_new) [
        | inl new ↦ (
          enqueue_operation-Owes request mutation (record dispatcher { cancellations = registered })
              dispatcher' (some reply) (ground (arith, h, new)),
          tt,
        )
        | inr active ↦ (ground (arith, h, active), tt)
      ]
