-- ===== src/Batch/Outcome.antt =====
-- The outcome that `native_batch_request_handler::execute` of
-- AviUtl2MCP.Bridge/src/native_batch_request_handler.cpp reports of a batch, against what the batch has
-- done to the editor.
use aviutl2mcp.Common.{
  ℕ, ◌≡◌, ◌≢◌, refl, sym, ◌∙◌, subst, inl, inr, Bool, true, false, not, ◌||◌, Option, none, some,
  List, Bytes, text, length, ◌==◌, Bool-cases, Result-cases, arith, Result, ok, err,
}
use aviutl2mcp.Revisions.{Tracker, maximum_counter, commit_content_change}
use aviutl2mcp.Platform.{Platform}
use aviutl2mcp.Dispatcher.{OperationRequest}
use aviutl2mcp.Dispatcher.Execution.{OperationResult}
use aviutl2mcp.Batch.{BatchRequest, BatchOperationResult, BatchEditResult}
use aviutl2mcp.Batch.Planning.{Scene}
use aviutl2mcp.Batch.Validation.{BatchOperation}
use aviutl2mcp.Batch.Facade.{Host, edit_batch}
use aviutl2mcp.Batch.Handler.{
  BatchData, create_native_success, create_native_failure, create_batch_data, dump_data,
}
use aviutl2mcp.Batch.Execute.{
  json_failure, caught_failure, partial_result, expects_other, report_edit, commit_edit, run_batch,
  execute_batch,
}
use aviutl2mcp.Batch.Reporting.{by_test}
use aviutl2mcp.Batch.Honesty.{AreHonest, edit_batch-IsHonest, edit_batch-dry}

partial_differs : text "partial" ≢ text "unchanged"
unfolding text
partial_differs e = ground arith

completed_differs : text "completed" ≢ text "unchanged"
unfolding text
completed_differs e = ground arith

-- A text is made of the data of a response: no snapshot is missing or has fields that a locator cannot
-- have, and all strings are UTF-8.
abbrev pub IsPrinted :
    {F : Type 0}
    → Platform
    → (instance_id : Bytes) → (BatchData F → Option Bytes)
    → (project_generation : Bytes) → List (BatchOperation F)
    → (preflight edited : BatchEditResult F) → Type 0
IsPrinted platform instance_id print project_generation operations preflight edited =
    (undo : Bool)
    → (json : Bytes) × (dump_data print (
          create_batch_data platform instance_id project_generation preflight (some edited) false
            operations undo)
        ≡ some (ok json))

commit_returns :
    (revisions : Tracker)
    → (revisions.content_counter == maximum_counter) ≡ false
    → (committed : Tracker) × (revision : Bytes) × (commit_content_change revisions
        ≡ ok (committed, revision))
      × (committed.project_generation ≡ revisions.project_generation)
unfolding commit_content_change
commit_returns revisions room = elim (Result-cases (commit_content_change revisions)) [
  | inl ((committed, revision), e) ↦ (committed, revision, e, ground (arith, e))
  | inr (raised, e) ↦ absurd (ground arith)
]

-- The facade as it stands at the dry run and at the edit.
abbrev pub facade :
    {F S : Type 0}
    → (BatchRequest F → Option ℕ → S → S × BatchOperationResult F)
    → (Bool → Host)
    → (Bool → Scene F)
    → (dry_run : Bool) → List (BatchOperation F)
    → S
    → S × BatchEditResult F
facade execute_operation host scene dry_run operations editor =
    edit_batch execute_operation (host dry_run) (scene dry_run) dry_run operations editor

module _ {F : Type 0} (platform : Platform) (instance_id : Bytes)
    (print : BatchData F → Option Bytes) where
  report_edit-unchanged :
      (operations : List (BatchOperation F)) (preflight edited : BatchEditResult F)
      (revisions : Tracker)
      → IsPrinted platform instance_id print revisions.project_generation operations preflight
          edited
      → (report_edit platform instance_id print operations preflight edited revisions).outcome
        ≡ text "unchanged"
      → edited.has_changed ≡ false
  unfolding report_edit partial_result create_native_success create_native_failure
  report_edit-unchanged operations preflight edited revisions made h =
      elim (Bool-cases edited.has_changed) [
        | inr quiet ↦ quiet
        | inl moved ↦
            ground (arith, moved, h, partial_differs, completed_differs, made true, made false)
      ]

  module _ {S : Type 0}
      (execute_operation : BatchRequest F → Option ℕ → S → S × BatchOperationResult F)
      (honest : AreHonest execute_operation) (host : Bool → Host) (scene : Bool → Scene F)
      (revisions : Tracker) (room : (revisions.content_counter == maximum_counter) ≡ false)
      (editor : S) where
    ArePrinted : List (BatchOperation F) → Type 0
    ArePrinted operations =
        IsPrinted platform instance_id print revisions.project_generation operations
          (facade execute_operation host scene true operations editor).1
          (facade execute_operation host scene false operations editor).1

    -- What is claimed of a run of the handler.
    IsTrue : S × Tracker × OperationResult → Type 0
    IsTrue run = (run.2.outcome ≡ text "unchanged") → run.0 ≡ editor

    commit_edit-IsTrue :
        (operations : List (BatchOperation F)) (preflight : BatchEditResult F)
        → IsPrinted platform instance_id print revisions.project_generation operations preflight
            (facade execute_operation host scene false operations editor).1
        → IsTrue (
            commit_edit platform instance_id print
              (facade execute_operation host scene)
              operations
              preflight
              revisions
              editor)
    unfolding commit_edit IsTrue
    commit_edit-IsTrue operations preflight made =
        let (committed, revision, commits, same) = commit_returns revisions room in
        by_test IsTrue edited.has_changed
          (λ moved h. absurd (
            true_false (
              sym moved
              ∙ report_edit-unchanged operations preflight edited committed
                  (subst
                    (λ (generation : Bytes).
                      IsPrinted platform instance_id print generation operations preflight edited)
                    (sym same) made)
                  (ground (arith, h, commits)))))
          (λ quiet h.
            edit_batch-IsHonest execute_operation honest (host false) (scene false) false operations
              editor quiet)
      where
        edited : BatchEditResult F
        edited = (facade execute_operation host scene false operations editor).1

        true_false : true ≢ false
        true_false e = cc

    run_batch-IsTrue :
        (request : OperationRequest) (operations : List (BatchOperation F)) (reached : Bool)
        → ArePrinted operations
        → IsTrue (
            run_batch platform instance_id print
              (facade execute_operation host scene)
              request
              operations
              reached
              revisions
              editor)
    unfolding run_batch IsTrue ArePrinted
    run_batch-IsTrue request operations reached made h =
        let edit = facade execute_operation host scene in
        let preflight = (edit true operations editor).1 in
        let same : (edit true operations editor).0 ≡ editor =
          edit_batch-dry execute_operation (host true) (scene true) editor operations in
        let counts = length preflight.operations == length operations in
        elim (Bool-cases (not preflight.is_ok || not counts)) [
          | inl refusing ↦ rw (run_batch, refusing) same
          | inr planned ↦ elim (Bool-cases request.dry_run) [
            | inl dry ↦ rw (run_batch, planned, dry) same
            | inr wet ↦ elim (Bool-cases reached) [
              | inr cancelling ↦ rw (run_batch, planned, wet, cancelling) same
              | inl passed ↦
                  let commits : run_batch platform instance_id print edit request operations reached
                        revisions editor
                      ≡ commit_edit platform instance_id print edit operations preflight revisions
                          editor =
                    rw (run_batch, planned, wet, passed, same) refl in
                  subst IsTrue (sym commits) (commit_edit-IsTrue operations preflight made) h
            ]
          ]
        ]

  -- Suppose the edits of single operations leave the editor alone where they say so, a JSON
  -- text is made of the data of the response to the operations that are parsed, and the content counter
  -- has not reached its end. Then a batch that is reported as unchanged has left the editor as it was: whether its revision is outdated, its
  -- parameters are wrong, its dry run fails, it is cancelled, or the edit itself fails.
  pub unchanged_is_unchanged :
      {S : Type 0} (execute_operation : BatchRequest F → Option ℕ → S → S × BatchOperationResult F)
      (host : Bool → Host) (scene : Bool → Scene F)
      (parse : Bytes → Option (Result (List (BatchOperation F)))) (request : OperationRequest)
      (reached : Bool) (revisions : Tracker) (editor : S)
      → AreHonest execute_operation
      → (revisions.content_counter == maximum_counter) ≡ false
      → ((operations : List (BatchOperation F))
          → parse request.params_json ≡ some (ok operations)
          → IsPrinted platform instance_id print revisions.project_generation operations
              (facade execute_operation host scene true operations editor).1
              (facade execute_operation host scene false operations editor).1)
      → (execute_batch platform instance_id print
          (facade execute_operation host scene)
          parse
          request
          reached
          revisions
          editor).2.outcome
        ≡ text "unchanged"
      → (execute_batch platform instance_id print
          (facade execute_operation host scene)
          parse
          request
          reached
          revisions
          editor).0
        ≡ editor
  unfolding execute_batch IsTrue ArePrinted
  unchanged_is_unchanged {S} execute_operation host scene parse request reached revisions editor
        honest room made =
      by_test (IsTrue execute_operation honest host scene revisions room editor)
        (expects_other request revisions) (λ outdated h. refl)
        (λ current. by_parse (parse request.params_json) refl)
    where
      by_parse :
          (parsed : Option (Result (List (BatchOperation F))))
          → parse request.params_json ≡ parsed
          → IsTrue execute_operation honest host scene revisions room editor
              (elim parsed as (λ p. S × Tracker × OperationResult) [
                | none ↦ (editor, revisions, json_failure revisions)
                | some (err raised) ↦ (editor, revisions, caught_failure raised revisions)
                | some (ok operations) ↦
                    run_batch platform instance_id print
                      (facade execute_operation host scene)
                      request
                      operations
                      reached
                      revisions
                      editor
              ])
      by_parse none e h = refl
      by_parse (some (err raised)) e h = refl
      by_parse (some (ok operations)) e h =
          run_batch-IsTrue execute_operation honest host scene revisions room editor request
            operations reached (made operations e) h
