-- ===== src/Batch/Run.antt =====
-- `edit_sdk_batch` of AviUtl2MCP.Bridge/src/sdk_read_facade.cpp: it plans all operations of a batch, then
-- executes them one by one. The editor is any state `S`, and `execute_operation` is the edit of one
-- operation on it, which catches its exceptions and reports.
use aviutl2mcp.Common.{
  ℕ, zero, suc, Bool, true, false, ◌||◌, Option, none, some, List, [], ◌∷◌, ◌++◌, Bytes, text,
  if◌then◌else◌, is_empty, map, not, Exception, Result, ok, err, invalid_argument, runtime_error,
  throw_if, ◌>>◌,
}
use aviutl2mcp.Batch.{
  LayerSnapshot, BatchRequest, creates, edits_object, edits_effect, edits_layer, BatchValue,
  created, edited_object, edited_effect, edited_layer, BatchOperationResult, BatchEditResult,
}
use aviutl2mcp.Batch.Attempt.{done, refused, thrown}
use aviutl2mcp.Batch.Effects.{what}
use aviutl2mcp.Batch.Scan.{ObjectPosition, initial_object, layer_count, scan_object_handles}
use aviutl2mcp.Batch.Planning.{Plan, Scene, plan_round}

abbrev or_default : Bytes → Bytes → Bytes
or_default value default = if is_empty value then default else value

-- `get_layer` for each layer from `layer` on.
unfoldable pub copy_layers : (ℕ → LayerSnapshot) → (count : ℕ) → (layer : ℕ) → List LayerSnapshot
copy_layers layer_of zero layer = []
copy_layers layer_of (suc count) layer = layer_of layer ∷ copy_layers layer_of count (suc layer)

-- The code of the handler that catches the exception.
unfoldable pub caught_code : Exception → Bytes
caught_code (invalid_argument message) = text "invalid_argument"
caught_code _ = text "sdk_query_failed"

module _ {F : Type 0} where
  -- The result that a failure of a request stands in.
  unfoldable pub empty_value : BatchRequest F → BatchValue F
  empty_value (creates request) = created []
  empty_value (edits_object request) = edited_object false none
  empty_value (edits_effect request) = edited_effect none none
  empty_value (edits_layer request) = edited_layer none

  unfoldable pub create_batch_failure :
      BatchRequest F → (code message : Bytes) → BatchOperationResult F
  create_batch_failure request code message = record {
    is_ok = false;
    has_changed = false;
    result = empty_value request;
    error_code = code;
    error_message = message;
  }

  unfoldable pub fail_batch : ℕ → BatchOperationResult F → BatchEditResult F → BatchEditResult F
  fail_batch index operation result = record result {
    failed_index = some index;
    error_code = or_default operation.error_code (text "sdk_query_failed");
    error_message =
        or_default operation.error_message
          (text "Batch operation failed without an error classification");
    operations = result.operations ++ (operation ∷ []);
  }

  -- The handlers of `edit_sdk_batch`.
  unfoldable pub catch_batch : Exception → BatchEditResult F → BatchEditResult F
  catch_batch raised result = record result {
    error_code = caught_code raised;
    error_message = what raised;
  }

  unfoldable pub push_operation : BatchOperationResult F → BatchEditResult F → BatchEditResult F
  push_operation operation result = record result {
    operations = result.operations ++ (operation ∷ []);
  }

  -- The loop that plans, from `index` on: the result so far, and where all is planned the plan and
  -- the resolved handles.
  unfoldable pub plan_operations :
      Scene F
      → List ObjectPosition
      → (index : ℕ) → List (BatchRequest F)
      → Plan F
      → BatchEditResult F
      → BatchEditResult F × Option (Plan F × List (Option ℕ))
  plan_operations scene initial index [] plan result = (result, some (plan, []))
  plan_operations scene initial index (request ∷ requests) plan result =
      elim (plan_round scene initial request plan) [
        | refused code message ↦
            (fail_batch index (create_batch_failure request code message) result, none)
        | thrown raised ↦ (catch_batch raised result, none)
        | done (next, planned, handle) ↦
            let (behind, all) =
              plan_operations scene initial (suc index) requests next
                (push_operation planned result) in
            elim all as (λ a. BatchEditResult F × Option (Plan F × List (Option ℕ))) [
              | none ↦ (behind, none)
              | some (last, handles) ↦ (behind, some (last, handle ∷ handles))
            ]
      ]

  abbrev pub initial_plan : Scene F → List ObjectPosition → Plan F
  initial_plan scene objects = record {
    objects = map initial_object objects;
    layers = copy_layers scene.readings.layer_of (layer_count scene.info) 0;
    effects = [];
  }

  abbrev pub empty_result : BatchEditResult F
  empty_result = record {
    is_ok = false;
    has_changed = false;
    operations = [];
    failed_index = none;
    error_code = [];
    error_message = [];
  }

  abbrev pub note_change : BatchOperationResult F → BatchEditResult F → BatchEditResult F
  note_change applied result = record result {
    has_changed = result.has_changed || applied.has_changed;
  }

  -- The first state of the objects, where the SDK has the functions for it.
  unfoldable pub scan_scene : Scene F → Result (List ObjectPosition)
  scan_scene scene = do
    throw_if (not scene.readings.has_object_layer_frame)
        (runtime_error "SDK batch callback functions are unavailable")
    scan_object_handles scene.readings scene.info

  module _ {S : Type 0}
      (execute_operation : BatchRequest F → Option ℕ → S → S × BatchOperationResult F) where
    -- The loop that executes, from `index` on.
    unfoldable pub execute_operations :
        (index : ℕ)
        → List (BatchRequest F)
        → List (Option ℕ)
        → S
        → BatchEditResult F
        → S × BatchEditResult F
    execute_operations index [] handles editor result = (editor, record result { is_ok = true })
    execute_operations index (request ∷ requests) [] editor result = (editor, result)
    execute_operations index (request ∷ requests) (handle ∷ handles) editor result =
        let (edited, applied) = execute_operation request handle editor in
        let noted = note_change applied result in
        let rest =
          execute_operations (suc index) requests handles edited (push_operation applied noted) in
        if applied.is_ok then rest else (edited, fail_batch index applied noted)

    unfoldable pub run_plan :
        (dry_run : Bool)
        → List (BatchRequest F)
        → Option (Plan F × List (Option ℕ))
        → S
        → BatchEditResult F
        → S × BatchEditResult F
    run_plan dry_run requests none editor result = (editor, result)
    run_plan true requests (some (plan, handles)) editor result =
        (editor, record result { is_ok = true })
    run_plan false requests (some (plan, handles)) editor result =
        execute_operations 0 requests handles editor (record result { operations = [] })

    -- What is planned and executed on the objects that the scan finds.
    unfoldable pub edit_scanned :
        Scene F
        → (dry_run : Bool) → List (BatchRequest F)
        → List ObjectPosition
        → S
        → S × BatchEditResult F
    edit_scanned scene dry_run requests initial editor =
        let (result, plan) =
          plan_operations scene initial 0 requests (initial_plan scene initial) empty_result in
        run_plan dry_run requests plan editor result

    unfoldable pub edit_sdk_batch :
        Scene F → (dry_run : Bool) → List (BatchRequest F) → S → S × BatchEditResult F
    edit_sdk_batch scene dry_run requests editor =
        elim (scan_scene scene) as (λ s. S × BatchEditResult F) [
          | err raised ↦ (editor, catch_batch raised empty_result)
          | ok initial ↦ edit_scanned scene dry_run requests initial editor
        ]
