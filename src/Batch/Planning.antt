-- ===== src/Batch/Planning.antt =====
-- The first half of `edit_sdk_batch` in AviUtl2MCP.Bridge/src/sdk_read_facade.cpp: each operation of a
-- batch is resolved against the first state and planned on the state that the ones before it leave.
use aviutl2mcp.Common.{
  ℕ, Bool, true, false, not, ◌&&◌, Option, none, some, List, [], ◌∷◌, Bytes, text, if◌then◌else◌,
}
use aviutl2mcp.Common.Ints.{pos, int_eq, ◌-ℤ◌}
use aviutl2mcp.Platform.{Platform}
use aviutl2mcp.Locators.{
  ObjectLocator, ResolutionStatus, resolved, ambiguous, resolve_object_locator,
}
use aviutl2mcp.Batch.{
  ObjectSnapshot, LayerSnapshot, BatchRequest, creates, edits_object, edits_effect, edits_layer,
  BatchValue, created, edited_object, edited_effect, edited_layer, BatchOperationResult,
  EditSection, EditInfo, PlannedObject,
}
use aviutl2mcp.Batch.Attempt.{Attempt, done, refused, refuse_if, of_result, require, ◌>>=◌, ◌>>◌}
use aviutl2mcp.Batch.Objects.{plan_batch_create}
use aviutl2mcp.Batch.Sections.{plan_batch_object_edit}
use aviutl2mcp.Batch.Effects.{
  Readings, PlannedEffect, plan_batch_effect_edit, plan_batch_layer_edit,
}
use aviutl2mcp.Batch.Values.{Floating}
use aviutl2mcp.Batch.Scan.{ObjectPosition}

-- The state that is planned on: `planned_objects`, `layers` and `planned_effects`.
pub record Plan (F : Type 0) : Type 0 where
  pub objects : List PlannedObject
  pub layers : List LayerSnapshot
  pub effects : List (PlannedEffect F)

-- What a batch runs in: the arguments of the call, and what the SDK shows.
pub record Scene (F : Type 0) : Type 0 where
  pub platform : Platform
  pub floating : Floating F
  pub edit : EditSection
  pub info : EditInfo
  pub readings : Readings F
  pub instance_id : Bytes
  pub project_generation : Bytes

unfoldable pub find_position : ObjectLocator → List ObjectPosition → Option ObjectPosition
find_position locator [] = none
find_position locator (object ∷ objects) =
    if int_eq object.position.layer (locator.layer -ℤ pos 1)
      && int_eq object.position.start (locator.start_frame -ℤ pos 1)
    then some object
    else find_position locator objects

abbrev is_resolved : ResolutionStatus → Bool
is_resolved resolved = true
is_resolved _ = false

abbrev unresolved_code : ResolutionStatus → Bytes
unresolved_code ambiguous = text "object_ambiguous"
unresolved_code _ = text "object_not_found"

abbrev handle_of : Option (ℕ × ObjectSnapshot) → Option ℕ
handle_of none = none
handle_of (some (handle, snapshot)) = some handle

module _ {F : Type 0} where
  unfoldable pub get_batch_locator : BatchRequest F → Option ObjectLocator
  get_batch_locator (edits_object request) = some request.locator
  get_batch_locator (edits_effect request) = some request.locator
  get_batch_locator (creates request) = none
  get_batch_locator (edits_layer request) = none

  unfoldable pub resolve_batch_object :
      Scene F → List ObjectPosition → ObjectLocator → Attempt (ℕ × ObjectSnapshot)
  resolve_batch_object scene initial locator = do
    refuse_if (not (int_eq locator.scene_id scene.info.scene_id)) (text "object_not_found")
        (text "The batch locator is not in the active scene")
    found ←
        require (find_position locator initial) (text "object_not_found")
          (text "The batch locator did not resolve against the initial state")
    snapshot ← of_result (scene.readings.snapshot_of found.handle)
    answer ← of_result (
        resolve_object_locator scene.platform locator scene.instance_id scene.project_generation
          (snapshot.candidate ∷ []))
    refuse_if (not (is_resolved answer.status)) (unresolved_code answer.status)
        (text "The batch locator fingerprint is stale")
    done (found.handle, snapshot)

  unfoldable pub resolve_operation :
      Scene F → List ObjectPosition → BatchRequest F → Attempt (Option (ℕ × ObjectSnapshot))
  resolve_operation scene initial request =
      elim (get_batch_locator request) as (λ l. Attempt (Option (ℕ × ObjectSnapshot))) [
        | none ↦ done none
        | some locator ↦ do object ← resolve_batch_object scene initial locator; done (some object)
      ]

  -- `create_batch_operation_result` of what was planned, which has changed nothing.
  abbrev planned_result : BatchValue F → BatchOperationResult F
  planned_result value = record {
    is_ok = true;
    has_changed = false;
    result = value;
    error_code = [];
    error_message = [];
  }

  -- The four kinds of operation. An edit of an object or an effect has an object that its locator
  -- stands for: without it the code would read through an empty optional.
  unfoldable pub plan_operation :
      Scene F
      → BatchRequest F
      → Option (ℕ × ObjectSnapshot)
      → Plan F
      → Attempt (Plan F × BatchOperationResult F)
  plan_operation scene (creates request) object plan = do
    objects ← plan_batch_create scene.edit scene.info request plan.layers plan.objects
    done (record plan { objects = objects }, planned_result (created []))
  plan_operation scene (edits_object request) none plan = refused [] []
  plan_operation scene (edits_object request) (some (handle, snapshot)) plan = do
    (objects, before) ←
        plan_batch_object_edit scene.edit scene.info request handle snapshot plan.layers
          plan.objects
    done (record plan { objects = objects }, planned_result (edited_object false (some before)))
  plan_operation scene (edits_effect request) none plan = refused [] []
  plan_operation scene (edits_effect request) (some (handle, snapshot)) plan = do
    (effects, effect, item) ←
        plan_batch_effect_edit scene.floating scene.edit scene.readings request handle plan.layers
          plan.objects plan.effects
    done (record plan { effects = effects }, planned_result (edited_effect effect item))
  plan_operation scene (edits_layer request) object plan = do
    (layers, before) ← plan_batch_layer_edit scene.edit scene.info request plan.layers
    done (record plan { layers = layers }, planned_result (edited_layer (some before)))

  -- One round of the loop: the plan, the result that is pushed, and `resolved_handles[index]`.
  unfoldable pub plan_round :
      Scene F
      → List ObjectPosition
      → BatchRequest F
      → Plan F
      → Attempt (Plan F × BatchOperationResult F × Option ℕ)
  plan_round scene initial request plan = do
    object ← resolve_operation scene initial request
    (next, result) ← plan_operation scene request object plan
    done (next, result, handle_of object)
