-- ===== src/Examples/Executions.antt =====
-- The mutation of Examples.Dispatches run by the worker of AviUtl2MCP.Bridge/src/request_dispatcher.cpp:
-- a handler that commits, and one that is cancelled before its commit point.
use aviutl2mcp.Common.{
  suc, ◌≡◌, refl, true, false, Option, some, List, [], ◌∷◌, Bytes, bytes_eq, text, Result, ok, err,
  arith,
}
use aviutl2mcp.Common.Maps.{find, assign}
use aviutl2mcp.Common.Hex.{hex, hex_digit}
use aviutl2mcp.Cancellation
use aviutl2mcp.Cancellation.{
  cancel, RequestState, create_key, state_of, set_state, try_begin, try_reach_commit_point,
}
use aviutl2mcp.AtMostOnce.Operations.{new_entry, is_completed}
use aviutl2mcp.AtMostOnce.Methods.{entry_of, is_queued, mark_executing, complete}
use aviutl2mcp.Ipc.Frame.{append_chunks, calculate_hash, calculate_sha256}
use aviutl2mcp.Dispatcher.{ErrorReply, Dispatcher, stored_reply}
use aviutl2mcp.Dispatcher.Execution.{
  OperationResult, ResponseReply, Answer, rejected, Script, returns, asks_cancelled,
  reaches_commit_point, updates_revisions, Interference, cancels, execute, settle, is_cancelled,
  Context, changes_revisions, interrupt, interfere_all, interfere, reach_commit_point, catch_result,
  require_outcome, create_response,
}
use aviutl2mcp.Dispatcher.Callbacks.{
  cancelled_reply, perform_operation, await_attached, open_context, close_context, run_handler,
  conclude_operation, mark_mutation, respond,
}
use aviutl2mcp.Dispatcher.Conclusion.{IsPrinter, IsText, IsSettled}
use aviutl2mcp.Dispatcher.Settlement.{
  run_of, IsPerformed, perform_operation_settles, attached_same_text,
}
use aviutl2mcp.Dispatcher.CommitPoint.{Phase, commit_point_agrees, cancelled_is_unchanged}
use aviutl2mcp.Examples.Mutations.{a_platform, a_key, repeated}
use aviutl2mcp.Examples.Dispatches.{a_request, waiting}

abbrev short_dump : ErrorReply → Bytes
short_dump reply = b'!' ∷ []

abbrev short_print : ResponseReply → Result Bytes
short_print reply = ok (b'{' ∷ b'}' ∷ [])

short-IsPrinter :
    (refused : ErrorReply) (run : Context × Option OperationResult)
    → IsPrinter a_request short_dump short_print refused run
short-IsPrinter refused run = record {
  dumped = (refl, omega arith);
  printed = λ json e. (ground arith, ground arith);
  replacement = (b'{' ∷ b'}' ∷ [], refl, (refl, omega arith));
}

abbrev done_result : OperationResult
done_result = record {
  is_ok = true;
  outcome = b'c' ∷ [];
  result_json = [];
  error_code = [];
  error_message = [];
  revision = [];
  view_revision = [];
  retryable = false;
  undo_recommended = false;
  binary = [];
}

-- It commits, raises the content counter and returns.
abbrev committing : Script
committing = reaches_commit_point λ reached.
    updates_revisions (λ t. record t { content_counter = suc t.content_counter })
      (returns done_result)

-- Another project is loaded behind the response.
abbrev a_reset : List Interference
a_reset =
    changes_revisions (λ t. record t { project_generation = b'h' ∷ []; content_counter = 0 }) ∷ []

abbrev a_cancelling : List (List Interference)
a_cancelling = (cancels (b'z' ∷ []) ∷ []) ∷ []

perform_operation_settles_example :
    (s : IsSettled short_dump short_print a_request 0 a_reset waiting (
      perform_operation a_platform short_dump short_print a_request
        (some 0)
        committing
        a_cancelling
        a_reset
        waiting))
    × IsPerformed a_platform short_dump short_print a_request committing a_cancelling a_reset
        waiting s.answer s.outcome s.revision
perform_operation_settles_example =
    perform_operation_settles a_platform short_dump short_print a_request 0
      (new_entry a_key (repeated 64) 600256) committing a_cancelling a_reset waiting
      (short-IsPrinter (cancelled_reply a_request waiting)
        (run_of a_platform short_dump short_print a_request committing a_cancelling waiting))
      refl refl

abbrev behind_of : Result (Dispatcher × Answer) → Dispatcher
behind_of (err thrown) = waiting
behind_of (ok (behind, answer)) = behind

abbrev answer_of : Result (Dispatcher × Answer) → Answer
answer_of (err thrown) = rejected (stored_reply [] [])
answer_of (ok (behind, answer)) = answer

-- The parts of what the run of `committing` returns.
committing_returns :
    let run =
      perform_operation a_platform short_dump short_print a_request
        (some 0)
        committing
        []
        []
        waiting in
    (run ≡ ok (behind_of run, answer_of run))
    × IsText short_dump short_print (answer_of run) (b'{' ∷ b'}' ∷ [])
unfolding perform_operation run_handler conclude_operation mark_mutation respond open_context
    close_context try_begin state_of find create_key hex hex_digit bytes_eq assign mark_executing
    entry_of is_queued execute interrupt interfere_all reach_commit_point try_reach_commit_point
    settle catch_result require_outcome is_cancelled Cancellation.is_cancelled create_response
    complete calculate_sha256 calculate_hash append_chunks is_completed
committing_returns = (refl, refl)

attached_same_text_example :
    await_attached a_request (some 0) (
      behind_of (
        perform_operation a_platform short_dump short_print a_request
          (some 0)
          committing
          []
          []
          waiting))
    ≡ ok (rejected (stored_reply a_key.request_id (b'{' ∷ b'}' ∷ [])))
attached_same_text_example =
    attached_same_text a_platform short_dump short_print a_request 0
      (new_entry a_key (repeated 64) 600256) committing [] [] waiting
      (behind_of (
        perform_operation a_platform short_dump short_print a_request (some 0) committing [] []
          waiting))
      (answer_of (
        perform_operation a_platform short_dump short_print a_request (some 0) committing [] []
          waiting))
      (b'{' ∷ b'}' ∷ []) a_request
      (short-IsPrinter (cancelled_reply a_request waiting)
        (run_of a_platform short_dump short_print a_request committing [] waiting))
      refl refl tt (omega arith) committing_returns.0 committing_returns.1 (omega arith)
      (omega arith)

-- It asks whether it is cancelled, then it tries to commit; in between it is cancelled.
abbrev late : Script
late = asks_cancelled λ stop. reaches_commit_point λ reached. returns done_result

abbrev a_cancel : List (List Interference)
a_cancel = [] ∷ (cancels a_key.request_id ∷ []) ∷ []

waiting-begins : (try_begin a_key.request_id waiting.cancellations).1 ≡ true
unfolding try_begin state_of find create_key hex hex_digit bytes_eq
waiting-begins = refl

commit_point_agrees_example :
    Phase
      (execute late a_cancel (
        open_context a_request (record waiting {
          cancellations = (try_begin a_key.request_id waiting.cancellations).0;
        }))).0
commit_point_agrees_example = commit_point_agrees a_request waiting late a_cancel waiting-begins

late-cancelled :
    is_cancelled
      (execute late a_cancel (
        open_context a_request (record waiting {
          cancellations = (try_begin a_key.request_id waiting.cancellations).0;
        }))).0
    ≡ true
unfolding execute interrupt interfere_all interfere reach_commit_point try_reach_commit_point
    open_context try_begin state_of find create_key hex hex_digit bytes_eq assign cancel
    is_cancelled Cancellation.is_cancelled
late-cancelled = refl

cancelled_is_unchanged_example :
    let (context, returned) = execute late a_cancel (
      open_context a_request (record waiting {
        cancellations = (try_begin a_key.request_id waiting.cancellations).0;
      })) in
    (context.has_reached_commit_point ≡ false)
    × ((settle context returned).is_ok ≡ false)
    × ((settle context returned).outcome ≡ text "unchanged")
    × ((settle context returned).undo_recommended ≡ false)
cancelled_is_unchanged_example =
    cancelled_is_unchanged a_request waiting late a_cancel waiting-begins late-cancelled
