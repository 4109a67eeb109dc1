-- ===== src/Dispatcher/Callbacks.antt =====
-- The four callbacks that `request_dispatcher::dispatch` of AviUtl2MCP.Bridge/src/request_dispatcher.cpp
-- hands to the gate, and `cancel` and `stop` of the dispatcher. `dump` and `print` are the JSON
-- library's texts of a rejection and of a response; `print` throws where a part is no JSON.
use aviutl2mcp.Common.{
  ℕ, true, false, Option, none, some, List, Bytes, text, Result, ok, err, ◌>>=◌,
}
use aviutl2mcp.Platform.{Platform}
use aviutl2mcp.Cancellation
use aviutl2mcp.Cancellation.{CancelResult, try_begin, cancel_all}
use aviutl2mcp.AtMostOnce.{MutationRecord, Store}
use aviutl2mcp.AtMostOnce.Methods
use aviutl2mcp.AtMostOnce.Methods.{mark_executing, wait_for_completion}
use aviutl2mcp.Revisions.{content_revision}
use aviutl2mcp.Gate
use aviutl2mcp.Gate.{QueuedCommand}
use aviutl2mcp.Dispatcher.{
  OperationRequest, ErrorReply, error_reply, stored_reply, Callback, Dispatcher, create_error,
}
use aviutl2mcp.Dispatcher.Execution.{
  OperationResult, ResponseReply, Answer, rejected, executed, Script, Interference, Context,
  interrupt, execute, internal_error, settle, create_response, fallback,
}

unfoldable pub cancelled_reply : OperationRequest → Dispatcher → ErrorReply
cancelled_reply request dispatcher =
    create_error request (text "operation_cancelled")
      (text "Operation was cancelled before its commit point") (text "unchanged") false none
      dispatcher.revisions

-- The context at the start of an execution.
unfoldable pub open_context : OperationRequest → Dispatcher → Context
open_context request dispatcher = record {
  cancellations = dispatcher.cancellations;
  revisions = dispatcher.revisions;
  request_id = request.request_id;
  has_reached_commit_point = false;
}

unfoldable pub close_context : Context → Dispatcher → Dispatcher
close_context context dispatcher = record dispatcher {
  cancellations = context.cancellations;
  revisions = context.revisions;
}

module _ (platform : Platform) (dump : ErrorReply → Bytes)
    (print : ResponseReply → Result Bytes) where
  -- `if (mutation.valid()) mutations_.complete(...)`, then `cancellations_.complete(...)`.
  unfoldable pub conclude_operation :
      OperationRequest
      → Option ℕ
      → (outcome revision response : Bytes) → Dispatcher
      → Result Dispatcher
  conclude_operation request mutation outcome revision response dispatcher = do
    mutations ← elim mutation as (λ m. Result Store) [
      | none ↦ ok dispatcher.mutations
      | some token ↦
          Methods.complete platform (some token) outcome revision response dispatcher.mutations
    ]
    ok (record dispatcher {
      mutations = mutations;
      cancellations = Cancellation.complete request.request_id dispatcher.cancellations;
    })

  -- `if (mutation.valid()) mutations_.mark_executing(mutation)`.
  unfoldable pub mark_mutation : Option ℕ → Dispatcher → Result Dispatcher
  mark_mutation none dispatcher = ok dispatcher
  mark_mutation (some token) dispatcher = do
    mutations ← mark_executing (some token) dispatcher.mutations
    ok (record dispatcher { mutations = mutations })

  -- The result that is reported, with the response and its text.
  unfoldable pub respond :
      OperationRequest
      → Context
      → OperationResult
      → Result (OperationResult × ResponseReply × Bytes)
  respond request context result =
      let response = create_response request result context.revisions in
      let invalid = internal_error (text "Native operation result was invalid") context in
      let replacement = create_response request invalid context.revisions in
      elim (print response) as (λ p. Result (OperationResult × ResponseReply × Bytes)) [
        | ok printed ↦ ok (result, response, printed)
        | err thrown ↦ do printed ← print replacement; ok (invalid, replacement, printed)
      ]

  -- Other threads may change the registry and the tracker `between` the response and the completion.
  unfoldable pub run_handler :
      OperationRequest
      → Option ℕ
      → Script
      → List (List Interference)
      → (between : List Interference) → Dispatcher
      → Result (Dispatcher × Answer)
  run_handler request mutation handler others between dispatcher = do
    marked ← mark_mutation mutation dispatcher
    let (context, returned) = execute handler others (open_context request marked)
    (result, response, printed) ← respond request context (settle context returned)
    let later = interrupt between context
    let revision = fallback result.revision (content_revision later.revisions)
    concluded ←
        conclude_operation request mutation result.outcome revision printed
          (close_context later marked)
    ok (concluded, executed response)

  -- The callback `execute` of a queued operation.
  unfoldable pub perform_operation :
      OperationRequest
      → Option ℕ
      → Script
      → List (List Interference)
      → (between : List Interference) → Dispatcher
      → Result (Dispatcher × Answer)
  perform_operation request mutation handler others between dispatcher =
      let (cancellations, has_begun) = try_begin request.request_id dispatcher.cancellations in
      let begun = record dispatcher { cancellations = cancellations } in
      let later = close_context (interrupt between (open_context request begun)) begun in
      let refused = cancelled_reply request dispatcher in
      elim has_begun as (λ b. Result (Dispatcher × Answer)) [
        | true ↦ run_handler request mutation handler others between begun
        | false ↦ do
          concluded ←
              conclude_operation request mutation (text "unchanged")
                (content_revision later.revisions) (dump refused) later
          ok (concluded, rejected (error_reply refused))
      ]

  -- The callback `cancel` of a queued operation, which `stop` of the gate calls.
  unfoldable pub abandon_operation :
      OperationRequest → Option ℕ → Dispatcher → Result (Dispatcher × Answer)
  abandon_operation request mutation dispatcher = do
    let refused =
        create_error request (text "bridge_stopping")
          (text "Bridge stopped before operation execution") (text "not_started") true none
          dispatcher.revisions
    concluded ←
        conclude_operation request mutation (text "not_started")
          (content_revision dispatcher.revisions) (dump refused) dispatcher
    ok (concluded, rejected (error_reply refused))

-- What an attached request is answered when it has waited.
unfoldable pub attached_answer : OperationRequest → Option MutationRecord → Dispatcher → Answer
attached_answer request none dispatcher = rejected (
    error_reply (
      create_error request (text "operation_timeout")
        (text "Timed out waiting for attached mutation") (text "unknown") false none
        dispatcher.revisions))
attached_answer request (some known) dispatcher = elim known.response_json [
  | some response ↦ rejected (stored_reply request.request_id response)
  | none ↦ rejected (
      error_reply (
        create_error request (text "request_result_evicted") (text "Mutation response was evicted")
          known.outcome false (some known) dispatcher.revisions))
]

-- The callbacks of an attached request.
unfoldable pub await_attached : OperationRequest → Option ℕ → Dispatcher → Result Answer
await_attached request mutation dispatcher = do
  found ← wait_for_completion mutation request.timeout_ms dispatcher.mutations
  ok (attached_answer request found dispatcher)

unfoldable pub abandon_attached : OperationRequest → Dispatcher → Answer
abandon_attached request dispatcher = rejected (
    error_reply (
      create_error request (text "bridge_stopping")
        (text "Bridge stopped while waiting for an attached mutation") (text "unknown") true none
        dispatcher.revisions))

-- `request_dispatcher::cancel` behind the test of the frame.
unfoldable pub cancel_request : Bytes → Dispatcher → Dispatcher × CancelResult
cancel_request request_id dispatcher =
    let (cancellations, result) = Cancellation.cancel request_id dispatcher.cancellations in
    (record dispatcher { cancellations = cancellations }, result)

-- `request_dispatcher::stop` up to the joining of its threads: the dispatcher, and the commands
-- whose `cancel` the gate calls.
unfoldable pub stop_dispatcher : Dispatcher → Dispatcher × List (QueuedCommand Callback)
stop_dispatcher dispatcher =
    let (gate, abandoned) = Gate.stop dispatcher.gate in
    (
      record dispatcher { cancellations = cancel_all dispatcher.cancellations; gate = gate },
      abandoned,
    )
