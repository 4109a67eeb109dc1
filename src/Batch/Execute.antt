-- ===== src/Batch/Execute.antt =====
-- `native_batch_request_handler::execute` of AviUtl2MCP.Bridge/src/native_batch_request_handler.cpp: the
-- steps from the test of the revision to the result. The facade's `edit_batch` is a function of the dry
-- run and the operations on the editor; `reached` is what `reach_commit_point` answers.
use aviutl2mcp.Common.{
  ◌==◌, Bool, true, false, not, ◌||◌, Option, none, some, List, [], Bytes, text, if◌then◌else◌,
  is_empty, length, Exception, Result, ok, err, invalid_argument,
}
use aviutl2mcp.Revisions.{
  Tracker, content_revision, view_revision, matches_content, commit_content_change,
}
use aviutl2mcp.Platform.{Platform}
use aviutl2mcp.Dispatcher.{OperationRequest}
use aviutl2mcp.Dispatcher.Execution.{OperationResult}
use aviutl2mcp.Batch.{BatchEditResult}
use aviutl2mcp.Batch.Effects.{what}
use aviutl2mcp.Batch.Validation.{BatchOperation}
use aviutl2mcp.Batch.Handler.{
  BatchData, create_native_success, create_native_failure, is_retryable_sdk_error,
  create_batch_data, dump_data,
}

abbrev or_else : Bytes → Bytes → Bytes
or_else value default = if is_empty value then default else value

-- The handlers of `execute`.
unfoldable pub json_failure : Tracker → OperationResult
json_failure revisions =
    create_native_failure (text "invalid_argument") (text "Batch request JSON is invalid") revisions
      false

unfoldable pub caught_failure : Exception → Tracker → OperationResult
caught_failure (invalid_argument message) revisions =
    create_native_failure (text "invalid_argument") (text message) revisions false
caught_failure raised revisions =
    create_native_failure (text "sdk_query_failed") (what raised) revisions true

unfoldable pub partial_result : (result_json message : Bytes) → Tracker → OperationResult
partial_result result_json message revisions = record {
  is_ok = false;
  outcome = text "partial";
  result_json = result_json;
  error_code = text "partial_operation";
  error_message = message;
  revision = content_revision revisions;
  view_revision = view_revision revisions;
  retryable = false;
  undo_recommended = true;
  binary = [];
}

-- The test of the expected revision.
unfoldable pub expects_other : OperationRequest → Tracker → Bool
expects_other request revisions = elim request.expected_revision [
  | none ↦ true
  | some expected ↦ not (matches_content expected revisions)
]

module _ {F : Type 0} (platform : Platform) (instance_id : Bytes)
    (print : BatchData F → Option Bytes) where
  abbrev succeed : BatchData F → Tracker → OperationResult
  succeed content revisions = elim (dump_data print content) [
    | none ↦ json_failure revisions
    | some (err raised) ↦ caught_failure raised revisions
    | some (ok json) ↦ create_native_success json revisions
  ]

  -- The result of the edit, behind the commit of the revision.
  unfoldable pub report_edit :
      List (BatchOperation F) → (preflight edited : BatchEditResult F) → Tracker → OperationResult
  report_edit operations preflight edited revisions =
      let counts = length edited.operations == length operations in
      let failure =
        create_native_failure (or_else edited.error_code (text "sdk_query_failed"))
          (or_else edited.error_message (text "Batch edit failed")) revisions
          (is_retryable_sdk_error edited.error_code) in
      let made = create_batch_data platform instance_id revisions.project_generation preflight in
      let partial =
        elim (dump_data print (made (some edited) false operations true))
          as (λ d. OperationResult) [
            | none ↦ json_failure revisions
            | some (err raised) ↦ caught_failure raised revisions
            | some (ok json) ↦
                partial_result json
                  (text "The batch partially changed the project; one Undo is recommended")
                  revisions
          ] in
      let miscounted =
        if edited.has_changed
        then partial_result [] (text "Batch result count was invalid after project changes")
            revisions
        else create_native_failure (text "sdk_query_failed") (text "Batch result count was invalid")
            revisions true in
      if not edited.is_ok
      then (if not edited.has_changed then failure else partial)
      else if not counts
      then miscounted
      else succeed (made (some edited) false operations false) revisions

  module _ {S : Type 0}
      (edit_batch : (dry_run : Bool) → List (BatchOperation F) → S → S × BatchEditResult F) where
    -- From the edit on.
    unfoldable pub commit_edit :
        List (BatchOperation F)
        → (preflight : BatchEditResult F) → Tracker
        → S
        → S × Tracker × OperationResult
    commit_edit operations preflight revisions editor =
        let (after, edited) = edit_batch false operations editor in
        let unchanged = report_edit operations preflight edited revisions in
        let changed = elim (commit_content_change revisions) as (λ c. Tracker × OperationResult) [
          | err raised ↦ (revisions, caught_failure raised revisions)
          | ok (committed, revision) ↦
              (committed, report_edit operations preflight edited committed)
        ] in
        if edited.has_changed then (after, changed.0, changed.1) else (after, revisions, unchanged)

    -- From the preflight on.
    unfoldable pub run_batch :
        OperationRequest
        → List (BatchOperation F)
        → (reached : Bool) → Tracker
        → S
        → S × Tracker × OperationResult
    run_batch request operations reached revisions editor =
        let (looked_at, preflight) = edit_batch true operations editor in
        let counts = length preflight.operations == length operations in
        let refused =
          create_native_failure (or_else preflight.error_code (text "sdk_query_failed"))
            (or_else preflight.error_message
              (text "Batch preflight did not validate every operation"))
            revisions (is_retryable_sdk_error preflight.error_code) in
        let made = create_batch_data platform instance_id revisions.project_generation preflight in
        let planned = succeed (made none true operations false) revisions in
        let cancelled =
          create_native_failure (text "operation_cancelled")
            (text "Batch edit was cancelled before commit") revisions false in
        if not preflight.is_ok || not counts
        then (looked_at, revisions, refused)
        else if request.dry_run
        then (looked_at, revisions, planned)
        else if not reached
        then (looked_at, revisions, cancelled)
        else commit_edit operations preflight revisions looked_at

    -- `parse` is `nlohmann::json::parse` with `parse_batch`: none where the JSON library throws.
    unfoldable pub execute_batch :
        (parse : Bytes → Option (Result (List (BatchOperation F))))
        → OperationRequest
        → (reached : Bool) → Tracker
        → S
        → S × Tracker × OperationResult
    execute_batch parse request reached revisions editor =
        let conflict =
          create_native_failure (text "revision_conflict")
            (text "The expected content revision does not match the current revision") revisions
            false in
        let parsed = elim (parse request.params_json) as (λ p. S × Tracker × OperationResult) [
          | none ↦ (editor, revisions, json_failure revisions)
          | some (err raised) ↦ (editor, revisions, caught_failure raised revisions)
          | some (ok operations) ↦ run_batch request operations reached revisions editor
        ] in
        if expects_other request revisions then (editor, revisions, conflict) else parsed
