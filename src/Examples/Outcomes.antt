-- ===== src/Examples/Outcomes.antt =====
-- Two batches that end early, through `edit_batch` of AviUtl2MCP.Bridge/src/sdk_read_facade.cpp and
-- `execute` of src/native_batch_request_handler.cpp: one whose second operation fails, and one whose
-- first operation fails and changes nothing; and a dry run.
use aviutl2mcp.Common.{
  none, ℕ, suc, ◌≡◌, refl, subst, Bool, true, false, Option, some, List, [], ◌∷◌, Bytes, bytes_eq,
  text, arith, Result, ok,
}
use aviutl2mcp.Common.Ints.{◌+ℤ◌, ◌-ℤ◌}
use aviutl2mcp.Platform.{is_nonzero_uuid, try_parse_uuid, c_str}
use aviutl2mcp.Revisions.{
  to_string, digits_from, Tracker, content_revision, create_revision, matches_content,
}
use aviutl2mcp.Dispatcher.{OperationRequest}
use aviutl2mcp.Dispatcher.Execution.{OperationResult}
use aviutl2mcp.Batch.{
  BatchRequest, creates, edits_object, edits_effect, edits_layer, BatchOperationResult,
  BatchEditResult, created,
}
use aviutl2mcp.Batch.Attempt.{done}
use aviutl2mcp.Batch.Values.{has_nul}
use aviutl2mcp.Batch.Objects.{
  plan_batch_create, check_creation, overlaps_batch_plan, collides, is_locked_layer,
}
use aviutl2mcp.Batch.Effects.{plan_batch_layer_edit}
use aviutl2mcp.Batch.Scan.{scan_layer, scan_layers, scan_object_handles}
use aviutl2mcp.Batch.Planning.{
  Scene, plan_operation, plan_round, resolve_operation, get_batch_locator,
}
use aviutl2mcp.Batch.Run.{
  plan_operations, execute_operations, run_plan, fail_batch, push_operation, copy_layers,
  edit_sdk_batch, edit_scanned, scan_scene,
}
use aviutl2mcp.Batch.Validation.{
  BatchOperation, check_batch, check_operations, check_request, check_create_request,
  check_effect_source, invalid_layer_edit, contains_id,
}
use aviutl2mcp.Batch.Facade.{
  ProjectState, EditState, Host, Scheduling, check_status, call_editor, checked_edit, edit_batch,
  classify,
}
use aviutl2mcp.Batch.Handler.{
  BatchData, dump_data, create_batch_data, create_items, create_item, changes_at, payload_at,
  lay_out, create_native_failure, create_native_success,
}
use aviutl2mcp.Batch.Changes.{create_changes, layer_change, add_operation_payload}
use aviutl2mcp.Batch.Execute.{expects_other, report_edit, commit_edit, run_batch, execute_batch}
use aviutl2mcp.Batch.Outcome.{facade, IsPrinted, unchanged_is_unchanged}
use aviutl2mcp.Batch.Response.{ArePlanned, dry_run_succeeds}
use aviutl2mcp.Batch.Honesty.{AreHonest}
use aviutl2mcp.Examples.Batches.{behind_it, a_name, a_scene, counted_edit}
use aviutl2mcp.Examples.Dispatches.{a_request}
use aviutl2mcp.Examples.Mutations.{a_platform}

abbrev a_host : Host
a_host = record {
  is_dispatched = true;
  status = record {
    is_sdk_ready = true;
    has_query_error = false;
    query_error = [];
    project_state = ProjectState.saved;
    edit_state = EditState.edit;
  };
  has_read_section = true;
  has_edit_section = true;
  scheduling = Scheduling.calls;
  creatable = λ name. done 1;
}

abbrev two_named : List (BatchOperation ℕ)
two_named =
    record { client_operation_id = b'1' ∷ []; request = creates behind_it }
    ∷ record { client_operation_id = b'2' ∷ []; request = edits_layer a_name }
    ∷ []

abbrev stopped_edit : BatchEditResult ℕ
stopped_edit = (edit_batch counted_edit a_host a_scene false two_named 0).1

abbrev an_answer : Bool → BatchOperationResult ℕ
an_answer does = record {
  is_ok = does;
  has_changed = does;
  result = created [];
  error_code = [];
  error_message = [];
}

-- An editor that counts the edits that it makes: all but those that create an object, which it refuses.
refusing_edit : BatchRequest ℕ → Option ℕ → ℕ → ℕ × BatchOperationResult ℕ
refusing_edit (creates request) handle edits = (edits, an_answer false)
refusing_edit (edits_object request) handle edits = (suc edits, an_answer true)
refusing_edit (edits_effect request) handle edits = (suc edits, an_answer true)
refusing_edit (edits_layer request) handle edits = (suc edits, an_answer true)

refusing-AreHonest : AreHonest refusing_edit
unfolding refusing_edit
refusing-AreHonest (creates request) handle edits h = refl
refusing-AreHonest (edits_object request) handle edits h = absurd (ground (arith, h))
refusing-AreHonest (edits_effect request) handle edits h = absurd (ground (arith, h))
refusing-AreHonest (edits_layer request) handle edits h = absurd (ground (arith, h))

abbrev some_json : BatchData ℕ → Option Bytes
some_json content = some []

abbrev two_parsed : Bytes → Option (Result (List (BatchOperation ℕ)))
two_parsed params = some (ok two_named)

abbrev new_tracker : Tracker
new_tracker = record {
  server_epoch = b'e' ∷ [];
  project_generation = b'g' ∷ [];
  content_counter = 0;
  view_counter = 0;
}

abbrev current_request : OperationRequest
current_request = record a_request {
  expected_revision = some (b'e' ∷ b':' ∷ b'g' ∷ b':' ∷ b'0' ∷ []);
}

abbrev always_host : Bool → Host
always_host dry_run = a_host

abbrev always_scene : Bool → Scene ℕ
always_scene dry_run = a_scene

abbrev refused_batch : ℕ × Tracker × OperationResult
refused_batch =
    execute_batch a_platform (b'i' ∷ []) some_json (facade refusing_edit always_host always_scene)
      two_parsed current_request true new_tracker 5

batch-refused : refused_batch.2.outcome ≡ text "unchanged"
unfolding execute_batch run_batch commit_edit report_edit expects_other matches_content
    content_revision create_revision to_string digits_from create_native_failure edit_batch
    checked_edit check_batch check_operations check_request check_create_request check_effect_source
    invalid_layer_edit contains_id check_status call_editor classify edit_sdk_batch edit_scanned
    scan_scene scan_object_handles scan_layers scan_layer plan_operations plan_round
    resolve_operation get_batch_locator plan_operation plan_batch_create check_creation
    overlaps_batch_plan collides is_locked_layer plan_batch_layer_edit copy_layers run_plan
    execute_operations fail_batch push_operation ◌+ℤ◌ ◌-ℤ◌ bytes_eq is_nonzero_uuid try_parse_uuid
    c_str text has_nul refusing_edit
batch-refused = refl

-- The data of the response of a batch, if its operations are these.
abbrev IsBatchPrinted : List (BatchOperation ℕ) → Type 0
IsBatchPrinted operations =
    IsPrinted a_platform (b'i' ∷ []) some_json new_tracker.project_generation operations
      (facade refusing_edit always_host always_scene true operations 5).1
      (facade refusing_edit always_host always_scene false operations 5).1

two-printed : IsBatchPrinted two_named
unfolding dump_data create_batch_data create_items create_item changes_at payload_at create_changes
    layer_change add_operation_payload lay_out edit_batch checked_edit check_batch check_operations
    check_request check_create_request check_effect_source invalid_layer_edit contains_id
    check_status call_editor classify edit_sdk_batch edit_scanned scan_scene scan_object_handles
    scan_layers scan_layer plan_operations plan_round resolve_operation get_batch_locator
    plan_operation plan_batch_create check_creation overlaps_batch_plan collides is_locked_layer
    plan_batch_layer_edit copy_layers run_plan execute_operations fail_batch push_operation ◌+ℤ◌
    ◌-ℤ◌ bytes_eq is_nonzero_uuid try_parse_uuid c_str text has_nul refusing_edit
two-printed undo = ([], refl)

batch-printed :
    (operations : List (BatchOperation ℕ))
    → two_parsed current_request.params_json ≡ some (ok operations)
    → IsBatchPrinted operations
batch-printed operations parsed =
    let same : two_named ≡ operations = cc in subst IsBatchPrinted same two-printed

unchanged_is_unchanged_example : refused_batch.0 ≡ 5
unchanged_is_unchanged_example =
    unchanged_is_unchanged a_platform (b'i' ∷ []) some_json refusing_edit always_host always_scene
      two_parsed current_request true new_tracker 5 refusing-AreHonest refl batch-printed
      batch-refused

abbrev trying_request : OperationRequest
trying_request = record current_request { dry_run = true }

dry_run-accepted : (facade counted_edit always_host always_scene true two_named 0).1.is_ok ≡ true
unfolding dump_data create_batch_data create_items create_item changes_at payload_at create_changes
    layer_change add_operation_payload lay_out edit_batch checked_edit check_batch check_operations
    check_request check_create_request check_effect_source invalid_layer_edit contains_id
    check_status call_editor classify edit_sdk_batch edit_scanned scan_scene scan_object_handles
    scan_layers scan_layer plan_operations plan_round resolve_operation get_batch_locator
    plan_operation plan_batch_create check_creation overlaps_batch_plan collides is_locked_layer
    plan_batch_layer_edit copy_layers run_plan execute_operations fail_batch push_operation ◌+ℤ◌
    ◌-ℤ◌ bytes_eq is_nonzero_uuid try_parse_uuid c_str text has_nul
dry_run-accepted = refl

abbrev tried_edit : BatchEditResult ℕ
tried_edit = (facade counted_edit always_host always_scene true two_named 0).1

abbrev tried_data : BatchData ℕ
tried_data =
    create_batch_data a_platform (b'i' ∷ []) new_tracker.project_generation tried_edit none true
      two_named false

dry_run_succeeds_example :
    (run_batch a_platform
        (b'i' ∷ [])
        some_json
        (facade counted_edit always_host always_scene)
        trying_request
        two_named
        true
        new_tracker
        0
      ≡ (0, new_tracker, create_native_success [] new_tracker))
    × ArePlanned two_named tried_edit.operations tried_data.results
    × (tried_data.applied_operation_ids ≡ [])
    × (tried_data.undo_recommended ≡ false)
dry_run_succeeds_example =
    dry_run_succeeds a_platform (b'i' ∷ []) some_json counted_edit always_host always_scene
      trying_request two_named true new_tracker 0 [] refl dry_run-accepted refl
