-- ===== src/Batch/Facade.antt =====
-- `sdk_read_facade::edit_batch` of AviUtl2MCP.Bridge/src/sdk_read_facade.cpp: what stands between the
-- caller of a batch and `edit_sdk_batch`, which the editor calls back.
use aviutl2mcp.Common.{
  ℕ, Bool, true, false, not, ◌&&◌, ◌||◌, Option, List, Bytes, text, if◌then◌else◌, is_empty, map,
  Exception,
}
use aviutl2mcp.Batch.{BatchRequest, BatchOperationResult, BatchEditResult}
use aviutl2mcp.Batch.Attempt.{Attempt, done, refused, thrown, refuse_if, ◌>>◌}
use aviutl2mcp.Batch.Effects.{what}
use aviutl2mcp.Batch.Planning.{Scene}
use aviutl2mcp.Batch.Run.{empty_result, edit_sdk_batch}
use aviutl2mcp.Batch.Validation.{BatchOperation, check_batch}

-- `sdk_project_state` and `sdk_edit_state`.
pub data ProjectState : Type 0 where
  not_open unsaved saved unknown : ProjectState

pub data EditState : Type 0 where
  edit play save unknown : EditState

-- `sdk_status_snapshot`, as far as it is looked at here.
pub record StatusSnapshot : Type 0 where
  pub is_sdk_ready : Bool
  pub has_query_error : Bool
  pub query_error : Bytes
  pub project_state : ProjectState
  pub edit_state : EditState

unfoldable pub sdk_edit_state_error_code : EditState → Bytes
sdk_edit_state_error_code play = text "project_playing"
sdk_edit_state_error_code save = text "project_saving"
sdk_edit_state_error_code edit = text "edit_not_available"
sdk_edit_state_error_code EditState.unknown = text "edit_not_available"

unfoldable pub sdk_edit_state_error_message : EditState → Bytes
sdk_edit_state_error_message play = text "AviUtl2 is playing and cannot be edited"
sdk_edit_state_error_message save = text "AviUtl2 is saving or exporting and cannot be edited"
sdk_edit_state_error_message edit = text "AviUtl2 is not currently editable"
sdk_edit_state_error_message EditState.unknown = text "AviUtl2 is not currently editable"

-- What the editor makes of the request for a callback: it rejects it, it does not call, it throws
-- instead, or it calls back once.
pub data Scheduling : Type 0 where
  rejects forgets calls : Scheduling
  raises : Exception → Scheduling

-- What the facade has around a call: whether the window message reaches the main thread, the status,
-- the section functions of the edit handle, and the scheduling.
pub record Host : Type 0 where
  pub is_dispatched : Bool
  pub status : StatusSnapshot
  pub has_read_section : Bool
  pub has_edit_section : Bool
  pub scheduling : Scheduling
  pub creatable : Bytes → Attempt ℕ

abbrev is_open : ProjectState → Bool
is_open saved = true
is_open unsaved = true
is_open _ = false

abbrev is_editing : EditState → Bool
is_editing edit = true
is_editing _ = false

unfoldable pub check_status : Host → (dry_run : Bool) → Attempt (Unit {0})
check_status host dry_run = do
  let status = host.status
  refuse_if (not status.is_sdk_ready) (text "sdk_not_available")
      (text "AviUtl2 SDK edit handle is not available")
  refuse_if status.has_query_error (text "sdk_query_failed") status.query_error
  refuse_if (not (is_open status.project_state)) (text "project_not_open")
      (text "No AviUtl2 project is open")
  refuse_if (not (is_editing status.edit_state)) (sdk_edit_state_error_code status.edit_state)
      (sdk_edit_state_error_message status.edit_state)
  refuse_if (not host.has_read_section || (not dry_run && not host.has_edit_section))
      (text "sdk_not_available") (text "AviUtl2 SDK batch edit section is not available")

module _ {F : Type 0} where
  abbrev pub failure : (code message : Bytes) → BatchEditResult F
  failure code message = record empty_result { error_code = code; error_message = message }

  -- A failure without a code gets one.
  unfoldable pub classify : BatchEditResult F → BatchEditResult F
  classify result =
      if not result.is_ok && is_empty result.error_code
      then record result {
        error_code = text "sdk_query_failed";
        error_message = text "Batch edit failed without an SDK error classification";
      }
      else result

  module _ {S : Type 0}
      (execute_operation : BatchRequest F → Option ℕ → S → S × BatchOperationResult F) where
    -- The call of the editor.
    unfoldable pub call_editor :
        Host → Scene F → (dry_run : Bool) → List (BatchOperation F) → S → S × BatchEditResult F
    call_editor host scene dry_run operations editor = elim host.scheduling [
      | rejects ↦ (
        editor,
        failure (if dry_run then text "read_not_available" else text "edit_not_available")
            (text "AviUtl2 rejected the batch edit section"),
      )
      | forgets ↦ (
        editor,
        failure (text "sdk_query_failed") (text "AviUtl2 did not invoke the batch edit callback"),
      )
      | raises raised ↦ (editor, failure (text "sdk_query_failed") (what raised))
      | calls ↦
          let (after, result) =
            edit_sdk_batch execute_operation scene dry_run (map (λ o. o.request) operations)
              editor in
          (after, classify result)
    ]

    -- The tests, then the call.
    unfoldable pub checked_edit :
        Host → Scene F → (dry_run : Bool) → List (BatchOperation F) → S → S × BatchEditResult F
    checked_edit host scene dry_run operations editor =
        let checked = (do
          check_batch scene.platform scene.instance_id scene.project_generation host.creatable
              operations
          check_status host dry_run) in
        elim checked as (λ c. S × BatchEditResult F) [
          | refused code message ↦ (editor, failure code message)
          | thrown raised ↦ (editor, failure (text "sdk_query_failed") (what raised))
          | done passed ↦ call_editor host scene dry_run operations editor
        ]

    unfoldable pub edit_batch :
        Host → Scene F → (dry_run : Bool) → List (BatchOperation F) → S → S × BatchEditResult F
    edit_batch host scene dry_run operations editor =
        if host.is_dispatched
        then checked_edit host scene dry_run operations editor
        else (editor, failure (text "sdk_dispatch_failed") (text "SDK main-thread dispatch failed"))
