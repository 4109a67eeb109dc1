-- ===== src/Dispatcher/Execution.antt =====
-- The callbacks of `request_dispatcher::dispatch` in AviUtl2MCP.Bridge/src/request_dispatcher.cpp: the
-- execution of a queued operation by the gate's worker, and what happens to it on `stop`. A handler is
-- known here by its interface, `operation_handler::execute`: a `Script` of the calls that it makes on
-- its `operation_execution_context`. Between two of these calls other threads change the registry and the
-- tracker.

use aviutl2mcp.Common.{
  Bool, false, not, ◌&&◌, Option, none, some, List, [], ◌∷◌, Bytes, if◌then◌else◌, text, is_empty,
}
use aviutl2mcp.Cancellation
use aviutl2mcp.Cancellation.{
  Registry, register_request, try_begin, try_reach_commit_point, cancel, cancel_all,
}
use aviutl2mcp.Revisions.{Tracker, content_revision, view_revision}
use aviutl2mcp.Dispatcher.{OperationRequest, Reply}

pub record OperationResult : Type 0 where
  pub is_ok : Bool
  pub outcome : Bytes
  pub result_json : Bytes
  pub error_code : Bytes
  pub error_message : Bytes
  pub revision : Bytes
  pub view_revision : Bytes
  pub retryable : Bool
  pub undo_recommended : Bool
  pub binary : Bytes

-- The `error` member of a response.
pub record ResponseError : Type 0 where
  pub code : Bytes
  pub message : Bytes
  pub retryable : Bool
  pub outcome : Bytes
  pub undo_recommended : Bool

-- What `create_response_frame` puts into the JSON text, and the binary part beside it. `result` is a
-- text that is still to be parsed.
pub record ResponseReply : Type 0 where
  pub request_id : Bytes
  pub correlation_id : Bytes
  pub is_ok : Bool
  pub revision : Bytes
  pub view_revision : Bytes
  pub result : Option Bytes
  pub error : Option ResponseError
  pub binary : Bytes

-- What the promise of an operation is given.
pub data Answer : Type 0 where
  rejected : Reply → Answer
  executed : ResponseReply → Answer

-- The calls of one execution on its context, with what it does on each result. It ends with a result
-- or with an exception.
pub data Script : Type 0 where
  returns : OperationResult → Script
  throws : Script
  asks_cancelled : (Bool → Script) → Script
  reaches_commit_point : (Bool → Script) → Script
  reads_revisions : (Tracker → Script) → Script
  updates_revisions : (Tracker → Tracker) → Script → Script

-- A call of another thread: on the registry a dispatch, a Cancel frame, or `stop`; on the tracker any
-- change, as `reset_project` is one when another project is loaded.
pub data Interference : Type 0 where
  registers cancels : Bytes → Interference
  stops : Interference
  changes_revisions : (Tracker → Tracker) → Interference

-- `operation_execution_context`. The registry and the tracker are the dispatcher's own.
pub record Context : Type 0 where
  pub cancellations : Registry
  pub revisions : Tracker
  pub request_id : Bytes
  pub has_reached_commit_point : Bool

unfoldable pub interfere : Interference → Registry → Registry
interfere (registers id) registry = (register_request id registry).0
interfere (cancels id) registry = (cancel id registry).0
interfere stops registry = cancel_all registry
interfere (changes_revisions change) registry = registry

unfoldable pub revise : Interference → Tracker → Tracker
revise (registers id) revisions = revisions
revise (cancels id) revisions = revisions
revise stops revisions = revisions
revise (changes_revisions change) revisions = change revisions

unfoldable pub revise_all : List Interference → Tracker → Tracker
unfolding revise
revise_all [] revisions = revisions
revise_all (call ∷ calls) revisions = revise_all calls (revise call revisions)

unfoldable pub interfere_all : List Interference → Registry → Registry
unfolding interfere
interfere_all [] registry = registry
interfere_all (call ∷ calls) registry = interfere_all calls (interfere call registry)

unfoldable pub interrupt : List Interference → Context → Context
unfolding interfere_all revise_all
interrupt calls context = record context {
  cancellations = interfere_all calls context.cancellations;
  revisions = revise_all calls context.revisions;
}

unfoldable pub is_cancelled : Context → Bool
is_cancelled context = Cancellation.is_cancelled context.request_id context.cancellations

unfoldable pub reach_commit_point : Context → Context × Bool
reach_commit_point context =
    let (cancellations, reached) =
      try_reach_commit_point context.request_id context.cancellations in
    (record context { cancellations = cancellations; has_reached_commit_point = reached }, reached)

-- The calls of the other threads before each call on the context: none where the list has ended.
abbrev pub current : List (List Interference) → List Interference
current [] = []
current (calls ∷ later) = calls

abbrev pub following : List (List Interference) → List (List Interference)
following [] = []
following (calls ∷ later) = later

-- `handler->execute(request, context)`: the context behind it, and its result unless it has thrown.
unfoldable pub execute :
    Script → List (List Interference) → Context → Context × Option OperationResult
unfolding interrupt is_cancelled reach_commit_point
execute (returns result) others context = (interrupt (current others) context, some result)
execute throws others context = (interrupt (current others) context, none)
execute (asks_cancelled next) others context =
    let reached = interrupt (current others) context in
    execute (next (is_cancelled reached)) (following others) reached
execute (reaches_commit_point next) others context =
    let (reached, answer) = reach_commit_point (interrupt (current others) context) in
    execute (next answer) (following others) reached
execute (reads_revisions next) others context =
    let reached = interrupt (current others) context in
    execute (next reached.revisions) (following others) reached
execute (updates_revisions update next) others context =
    let reached = interrupt (current others) context in
    execute next (following others) (record reached { revisions = update reached.revisions })

abbrev outcome_of : Bool → Bytes
outcome_of reached = if reached then text "unknown" else text "unchanged"

-- The result for an execution that has failed in the native code.
unfoldable pub internal_error : (message : Bytes) → Context → OperationResult
internal_error message context = record {
  is_ok = false;
  outcome = outcome_of context.has_reached_commit_point;
  result_json = [];
  error_code = text "internal_error";
  error_message = message;
  revision = content_revision context.revisions;
  view_revision = view_revision context.revisions;
  retryable = false;
  undo_recommended = context.has_reached_commit_point;
  binary = [];
}

unfoldable pub operation_cancelled : Context → OperationResult
operation_cancelled context = record {
  is_ok = false;
  outcome = text "unchanged";
  result_json = [];
  error_code = text "operation_cancelled";
  error_message = text "Operation was cancelled before its commit point";
  revision = content_revision context.revisions;
  view_revision = view_revision context.revisions;
  retryable = false;
  undo_recommended = false;
  binary = [];
}

-- The `try` block and its handlers.
unfoldable pub catch_result : Context → Option OperationResult → OperationResult
unfolding internal_error
catch_result context none = internal_error (text "Native operation handler failed") context
catch_result context (some result) =
    if is_cancelled context && not context.has_reached_commit_point
    then operation_cancelled context
    else result

-- The `if` on an outcome that is empty.
unfoldable pub require_outcome : Context → OperationResult → OperationResult
require_outcome context result =
    if is_empty result.outcome
    then record result {
      is_ok = false;
      outcome = outcome_of context.has_reached_commit_point;
      error_code = text "internal_error";
      error_message = text "Native operation result omitted its outcome";
      retryable = false;
      undo_recommended = context.has_reached_commit_point;
    }
    else result

unfoldable pub settle : Context → Option OperationResult → OperationResult
settle context returned = require_outcome context (catch_result context returned)

abbrev pub fallback : Bytes → Bytes → Bytes
fallback value default = if is_empty value then default else value

abbrev optional : Bytes → Option Bytes
optional value = if is_empty value then none else some value

unfoldable pub create_response : OperationRequest → OperationResult → Tracker → ResponseReply
create_response request result revisions = record {
  request_id = request.request_id;
  correlation_id = request.correlation_id;
  is_ok = result.is_ok;
  revision = fallback result.revision (content_revision revisions);
  view_revision = fallback result.view_revision (view_revision revisions);
  result =
      if result.is_ok
      then some (fallback result.result_json (text "{}"))
      else optional result.result_json;
  error =
      if result.is_ok
      then none
      else some (record {
        code = result.error_code;
        message = result.error_message;
        retryable = result.retryable;
        outcome = result.outcome;
        undo_recommended = result.undo_recommended;
      });
  binary = result.binary;
}
