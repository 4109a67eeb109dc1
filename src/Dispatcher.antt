-- ===== src/Dispatcher.antt =====
-- `request_dispatcher::dispatch` of AviUtl2MCP.Bridge/src/request_dispatcher.cpp, behind the parsing
-- of the request and the look-up of its handler: how the at-most-once store, the cancellation registry
-- and the command gate are composed for one request. A reply stands as what its JSON text is made of;
-- `dump` makes the text, which the JSON library does. The callbacks of the gate are values.
pub mod Admission
pub mod Commands
pub mod Delivery
pub mod Outcomes
pub mod Execution
pub mod Callbacks
pub mod Conclusion
pub mod Settlement
pub mod CommitPoint
use aviutl2mcp.Common.{
  ℕ, Bool, true, false, not, ◌&&◌, Option, none, some, is_some, List, [], Bytes, if◌then◌else◌,
  text, Result, ok, err, ◌>>=◌, ◌>>◌, logic_error,
}
use aviutl2mcp.Platform.{Platform}
use aviutl2mcp.Cancellation
use aviutl2mcp.Cancellation.{Registry, register_request}
use aviutl2mcp.AtMostOnce.{
  MutationKey, MutationRecord, Store, BeginResult, BeginDecision, accepted, attach, cached,
  request_id_conflict, request_expired, result_evicted, bridge_busy,
}
use aviutl2mcp.AtMostOnce.Methods
use aviutl2mcp.AtMostOnce.Methods.{begin}
use aviutl2mcp.Revisions.{Tracker, content_revision, view_revision}
use aviutl2mcp.Gate.{Gate, EnqueueResult, busy, stopping, try_enqueue}

pub record OperationRequest : Type 0 where
  pub request_id : Bytes
  pub method : Bytes
  pub correlation_id : Bytes
  pub timeout_ms : ℕ
  pub expected_revision : Option Bytes
  pub dry_run : Bool
  pub params_json : Bytes
  pub binary : Bytes

-- What `create_error_frame` puts into the JSON text.
pub record ErrorReply : Type 0 where
  pub request_id : Bytes
  pub correlation_id : Bytes
  pub revision : Bytes
  pub view_revision : Bytes
  pub code : Bytes
  pub message : Bytes
  pub outcome : Bytes
  pub retryable : Bool
  pub details : Option (Bytes × Bytes)

-- An answer that is ready: an error, or the text of a response that was stored.
pub data Reply : Type 0 where
  error_reply : ErrorReply → Reply
  stored_reply : (request_id response_json : Bytes) → Reply

-- The callbacks that `dispatch` hands to the gate. `mutation` is none for a request that only reads.
pub data Callback : Type 0 where
  run_operation : OperationRequest → (mutation : Option ℕ) → Callback
  stop_operation : OperationRequest → (mutation : Option ℕ) → Callback
  await_mutation : OperationRequest → (mutation : Option ℕ) → Callback
  stop_awaiting : OperationRequest → Callback

pub record Dispatcher : Type 0 where
  pub server_epoch : Bytes
  pub mutations : Store
  pub cancellations : Registry
  pub gate : Gate Callback
  pub revisions : Tracker

unfoldable pub create_error :
    OperationRequest
    → (code message outcome : Bytes) → Bool
    → Option MutationRecord
    → Tracker
    → ErrorReply
create_error request code message outcome retryable found revisions = record {
  request_id = request.request_id;
  correlation_id = request.correlation_id;
  revision = elim found [ none ↦ content_revision revisions | some known ↦ known.revision ];
  view_revision = view_revision revisions;
  code = code;
  message = message;
  outcome = outcome;
  retryable = retryable;
  details = elim found [ none ↦ none | some known ↦ some (known.revision, known.result_digest) ];
}

-- The answers of the `switch`, where there is one: behind `accepted` and `attach` it breaks. The code
-- dereferences the record of a result that is cached or evicted.
unfoldable pub early_reply :
    OperationRequest → BeginDecision → Option MutationRecord → Tracker → Result (Option Reply)
early_reply request cached none revisions = err (logic_error "no record")
early_reply request cached (some known) revisions = elim known.response_json [
  | none ↦ err (logic_error "no response")
  | some response ↦ ok (some (stored_reply request.request_id response))
]
early_reply request request_id_conflict found revisions = ok (
    some (
      error_reply (
        create_error request (text "request_id_conflict")
          (text "Request ID was already used with a different payload") (text "not_started") false
          none revisions)))
early_reply request request_expired found revisions = ok (
    some (
      error_reply (
        create_error request (text "request_expired")
          (text "Mutation request timestamp is outside the accepted window") (text "not_started")
          false none revisions)))
early_reply request result_evicted none revisions = err (logic_error "no record")
early_reply request result_evicted (some known) revisions = ok (
    some (
      error_reply (
        create_error request (text "request_result_evicted")
          (text "Mutation result is known but its full response was evicted") known.outcome false
          (some known) revisions)))
early_reply request bridge_busy found revisions = ok (
    some (
      error_reply (
        create_error request (text "bridge_busy") (text "Mutation tombstone capacity is full")
          (text "not_started") true none revisions)))
early_reply request accepted found revisions = ok none
early_reply request attach found revisions = ok none

-- A future that waits for a callback is `none`.
unfoldable pub attach_request :
    OperationRequest → Option ℕ → Dispatcher → Result (Dispatcher × Option Reply)
attach_request request mutation dispatcher = do
  (gate, answer) ←
      try_enqueue (some (await_mutation request mutation)) (some (stop_awaiting request))
        dispatcher.gate
  let refused =
      create_error request (text "bridge_busy") (text "Bridge queue is unavailable")
        (text "unknown") true none dispatcher.revisions
  let pending = elim answer as (λ a. Option Reply) [
    | EnqueueResult.accepted ↦ none
    | busy ↦ some (error_reply refused)
    | stopping ↦ some (error_reply refused)
  ]
  ok (record dispatcher { gate = gate }, pending)

abbrev is_attach : BeginDecision → Bool
is_attach attach = true
is_attach _ = false

module _ (platform : Platform) (dump : ErrorReply → Bytes) where
  -- The end of `dispatch` where the gate has refused the callbacks.
  unfoldable pub refuse_operation :
      OperationRequest → Option ℕ → (code : Bytes) → Dispatcher → Result (Dispatcher × Option Reply)
  refuse_operation request mutation code dispatcher = do
    let response =
        create_error request code (text "Bridge command queue is unavailable") (text "not_started")
          true none dispatcher.revisions
    mutations ← elim mutation as (λ m. Result Store) [
      | none ↦ ok dispatcher.mutations
      | some token ↦
          Methods.complete platform (some token) (text "not_started")
            (content_revision dispatcher.revisions) (dump response) dispatcher.mutations
    ]
    ok (
      record dispatcher {
        mutations = mutations;
        cancellations = Cancellation.complete request.request_id dispatcher.cancellations;
      },
      some (error_reply response),
    )

  -- `dispatch` from the registration of the request on.
  unfoldable pub enqueue_operation :
      OperationRequest → Option ℕ → Dispatcher → Result (Dispatcher × Option Reply)
  enqueue_operation request mutation dispatcher = do
    (gate, answer) ←
        try_enqueue (some (run_operation request mutation)) (some (stop_operation request mutation))
          dispatcher.gate
    elim answer as (λ a. Result (Dispatcher × Option Reply)) [
      | EnqueueResult.accepted ↦ ok (record dispatcher { gate = gate }, none)
      | busy ↦ refuse_operation request mutation (text "bridge_busy") dispatcher
      | stopping ↦ refuse_operation request mutation (text "bridge_stopping") dispatcher
    ]

  unfoldable pub register_operation :
      OperationRequest → Option ℕ → Dispatcher → Result (Dispatcher × Option Reply)
  register_operation request mutation dispatcher =
      let (cancellations, is_new) = register_request request.request_id dispatcher.cancellations in
      let conflict =
        create_error request (text "request_id_conflict") (text "Request ID is already active")
          (text "not_started") false none dispatcher.revisions in
      let enqueued =
        enqueue_operation request mutation (record dispatcher { cancellations = cancellations }) in
      if is_new then enqueued else ok (dispatcher, some (error_reply conflict))

  -- `dispatch` behind `begin`.
  unfoldable pub continue_mutation :
      OperationRequest → BeginResult → Dispatcher → Result (Dispatcher × Option Reply)
  continue_mutation request begun dispatcher = do
    early ← early_reply request begun.decision begun.found dispatcher.revisions
    let attached = attach_request request begun.token dispatcher
    let registered = register_operation request begun.token dispatcher
    elim early as (λ e. Result (Dispatcher × Option Reply)) [
      | some reply ↦ ok (dispatcher, some reply)
      | none ↦ if is_some begun.token && is_attach begun.decision then attached else registered
    ]

  unfoldable pub dispatch :
      (is_mutating : Bool)
      → (now : ℕ) → (client_instance_id payload_hash : Bytes) → OperationRequest
      → Dispatcher
      → Result (Dispatcher × Option Reply)
  dispatch false now client_instance_id payload_hash request dispatcher =
      register_operation request none dispatcher
  dispatch true now client_instance_id payload_hash request dispatcher = do
    let key : MutationKey = record {
      server_epoch = dispatcher.server_epoch;
      client_instance_id = client_instance_id;
      request_id = request.request_id;
    }
    (mutations, begun) ← begin platform now key payload_hash dispatcher.mutations
    continue_mutation request begun (record dispatcher { mutations = mutations })
