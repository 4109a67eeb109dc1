-- ===== src/Batch/Handler.antt =====
-- `native_batch_request_handler::execute` of AviUtl2MCP.Bridge/src/native_batch_request_handler.cpp and
-- native_operation_result.cpp, behind the parsing of the batch: the data of a response. They stand as
-- what their JSON text is made of, with the exceptions on the way. The text is made by a parameter,
-- `print`, which is none where the JSON library throws, since a string is no UTF-8.
use aviutl2mcp.Common.{
  ℕ, suc, ◌==◌, Bool, true, false, ◌||◌, Option, none, some, List, [], ◌∷◌, Bytes, bytes_eq, text,
  if◌then◌else◌, get_elem?, ltb, Result, ok, err, ◌>>=◌, runtime_error,
}
use aviutl2mcp.Platform.{Platform}
use aviutl2mcp.Revisions.{Tracker, content_revision, view_revision}
use aviutl2mcp.Locators.{ObjectLocator}
use aviutl2mcp.Dispatcher.Execution.{OperationResult}
use aviutl2mcp.Batch.{
  CreateKind, move, delete_object, set_name, create_section, delete_section, move_section, set_item,
  set_state, ObjectSnapshot, BatchRequest, creates, edits_object, edits_effect, edits_layer,
  BatchOperationResult, BatchEditResult,
}
use aviutl2mcp.Batch.Changes.{Change, create_changes, add_operation_payload}
use aviutl2mcp.Batch.Validation.{BatchOperation}

pub data Status : Type 0 where
  planned applied failed skipped : Status

-- An entry of `results`. What throws here ends the whole function; see `lay_out`.
pub record BatchItem (F : Type 0) : Type 0 where
  pub client_operation_id : Bytes
  pub op : Bytes
  pub status : Status
  pub changes : Result (Change F)
  pub payload : Result (List (ObjectLocator × ObjectSnapshot))
  pub error : Option (Bytes × Bytes)

pub record BatchData (F : Type 0) : Type 0 where
  pub results : List (BatchItem F)
  pub applied_operation_ids : List Bytes
  pub undo_recommended : Bool

unfoldable pub create_native_success : (result_json : Bytes) → Tracker → OperationResult
create_native_success result_json revisions = record {
  is_ok = true;
  outcome = text "completed";
  result_json = result_json;
  error_code = [];
  error_message = [];
  revision = content_revision revisions;
  view_revision = view_revision revisions;
  retryable = false;
  undo_recommended = false;
  binary = [];
}

unfoldable pub create_native_failure :
    (code message : Bytes) → Tracker → (retryable : Bool) → OperationResult
create_native_failure code message revisions retryable = record {
  is_ok = false;
  outcome = text "unchanged";
  result_json = [];
  error_code = code;
  error_message = message;
  revision = content_revision revisions;
  view_revision = view_revision revisions;
  retryable = retryable;
  undo_recommended = false;
  binary = [];
}

unfoldable pub is_retryable_sdk_error : Bytes → Bool
is_retryable_sdk_error code =
    bytes_eq code (text "read_not_available")
    || (bytes_eq code (text "sdk_query_failed") || bytes_eq code (text "sdk_not_available"))

unfoldable pub get_operation_name : {F : Type 0} → BatchRequest F → Bytes
get_operation_name (creates request) = elim request.kind [
  | CreateKind.effect ↦ text "createObject"
  | CreateKind.media ↦ text "createMediaObject"
  | CreateKind.alias ↦ text "createAliasObject"
]
get_operation_name (edits_object request) = elim request.kind [
  | move ↦ text "moveObject"
  | delete_object ↦ text "deleteObject"
  | set_name ↦ text "setObjectName"
  | create_section ↦ text "createObjectSection"
  | delete_section ↦ text "deleteObjectSection"
  | move_section ↦ text "moveObjectSection"
]
get_operation_name (edits_effect request) = elim request.kind [
  | set_item ↦ text "setEffectItem"
  | set_state ↦ text "setEffectState"
]
get_operation_name (edits_layer request) = text "setLayer"

unfoldable pub status_at : (is_dry_run : Bool) → (failed_index : Option ℕ) → (index : ℕ) → Status
status_at is_dry_run none index = if is_dry_run then planned else applied
status_at is_dry_run (some failing) index =
    if ltb index failing then applied else if index == failing then failed else skipped

abbrev is_applied : Status → Bool
is_applied applied = true
is_applied _ = false

abbrev is_failed : Status → Bool
is_failed failed = true
is_failed _ = false

module _ {F : Type 0} where
  abbrev operation_at : Option (BatchEditResult F) → ℕ → Option (BatchOperationResult F)
  operation_at none index = none
  operation_at (some execution) index = get_elem? execution.operations index

  abbrev failed_index_of : Option (BatchEditResult F) → Option ℕ
  failed_index_of none = none
  failed_index_of (some execution) = execution.failed_index

  abbrev error_of : Option (BatchOperationResult F) → Option (Bytes × Bytes)
  error_of none = none
  error_of (some operation) = some (operation.error_code, operation.error_message)

  unfoldable pub applied_ids : List (BatchItem F) → List Bytes
  applied_ids [] = []
  applied_ids (item ∷ items) =
      let ids = applied_ids items in
      if is_applied item.status then item.client_operation_id ∷ ids else ids

  -- The exception that the loop over the operations ends with, or none.
  unfoldable pub lay_out : List (BatchItem F) → Result (Unit {0})
  lay_out [] = ok tt
  lay_out (item ∷ items) = do changes ← item.changes; payload ← item.payload; lay_out items

  -- `create_batch_data(...).dump()`.
  unfoldable pub dump_data :
      (print : BatchData F → Option Bytes) → BatchData F → Option (Result Bytes)
  dump_data print content = elim (lay_out content.results) as (λ l. Option (Result Bytes)) [
    | err raised ↦ some (err raised)
    | ok laid ↦ elim (print content) [ none ↦ none | some json ↦ some (ok json) ]
  ]

  module _ (platform : Platform) (instance_id project_generation : Bytes)
      (preflight : BatchEditResult F) (execution : Option (BatchEditResult F))
      (is_dry_run : Bool) where
    -- The preflight has a result for each operation; `[index]` beyond its end would be undefined.
    unfoldable pub changes_at : ℕ → BatchRequest F → Result (Change F)
    changes_at index request = elim (get_elem? preflight.operations index) [
      | none ↦ err (runtime_error "")
      | some operation ↦ create_changes request operation.result
    ]

    unfoldable pub payload_at : ℕ → BatchRequest F → Result (List (ObjectLocator × ObjectSnapshot))
    payload_at index request = elim (operation_at execution index) [
      | none ↦ ok []
      | some operation ↦
          add_operation_payload platform instance_id project_generation request operation.result
    ]

    unfoldable pub create_item : ℕ → BatchOperation F → BatchItem F
    create_item index operation =
        let status = status_at is_dry_run (failed_index_of execution) index in
        record {
          client_operation_id = operation.client_operation_id;
          op = get_operation_name operation.request;
          status = status;
          changes = changes_at index operation.request;
          payload = payload_at index operation.request;
          error = if is_failed status then error_of (operation_at execution index) else none;
        }

    -- The loop, from `index` on.
    unfoldable pub create_items : (index : ℕ) → List (BatchOperation F) → List (BatchItem F)
    create_items index [] = []
    create_items index (operation ∷ operations) =
        create_item index operation ∷ create_items (suc index) operations

    unfoldable pub create_batch_data : List (BatchOperation F) → (undo : Bool) → BatchData F
    create_batch_data operations undo =
        let items = create_items 0 operations in
        record {
          results = items;
          applied_operation_ids = applied_ids items;
          undo_recommended = undo;
        }
