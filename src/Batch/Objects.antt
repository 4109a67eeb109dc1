-- ===== src/Batch/Objects.antt =====
-- The planning of object edits of a batch in AviUtl2MCP.Bridge/src/sdk_read_facade.cpp: creation, and
-- the edits of an object that is there. An `int` is a whole number without a bound; the code's own
-- tests against the largest `int` are made.
use aviutl2mcp.Common.{
  ℕ, ◌-◌, ◌^◌, ◌==◌, Bool, true, false, not, ◌&&◌, ◌||◌, Option, none, some, is_some, List, [], ◌∷◌,
  ◌++◌, text, if◌then◌else◌, get_elem?, map,
}
use aviutl2mcp.Common.Ints.{ℤ, pos, negsuc, int_lt, int_le, int_eq, ◌+ℤ◌, ◌-ℤ◌}
use aviutl2mcp.Batch.{
  LayerSnapshot, CreateKind, CreateRequest, ObjectEditRequest, LayerFrame, EditSection, EditInfo,
  PlannedObject,
}
use aviutl2mcp.Batch.Attempt.{Attempt, done, refuse_if, of_result, require, ◌>>=◌, ◌>>◌}

-- `std::numeric_limits<int>::max()`.
abbrev pub maximum_int : ℤ
maximum_int = pos (2 ^ 31 - 1)

abbrev pub same_handle : Option ℕ → Option ℕ → Bool
same_handle none none = true
same_handle (some a) (some b) = a == b
same_handle _ _ = false

-- The first object of the plan with this handle.
unfoldable pub find_planned_object : Option ℕ → List PlannedObject → Option PlannedObject
find_planned_object handle [] = none
find_planned_object handle (object ∷ objects) =
    if same_handle object.handle handle then some object else find_planned_object handle objects

-- A write through the pointer that `find_planned_object` returned.
unfoldable pub set_planned_object :
    Option ℕ → PlannedObject → List PlannedObject → List PlannedObject
set_planned_object handle planned [] = []
set_planned_object handle planned (object ∷ objects) =
    if same_handle object.handle handle
    then planned ∷ objects
    else object ∷ set_planned_object handle planned objects

-- The test of `overlaps_batch_plan` on one object.
unfoldable pub collides : Option ℕ → LayerFrame → PlannedObject → Bool
collides ignored place object =
    let is_ignored = is_some ignored && same_handle object.handle ignored in
    not object.is_deleted
    && (not is_ignored
        && (int_eq object.position.layer place.layer
            && (int_le object.position.start place.end && int_le place.start object.position.end)))

unfoldable pub overlaps_batch_plan : Option ℕ → LayerFrame → List PlannedObject → Bool
unfolding collides
overlaps_batch_plan ignored place [] = false
overlaps_batch_plan ignored place (object ∷ objects) =
    collides ignored place object || overlaps_batch_plan ignored place objects

-- `layers[static_cast<std::size_t>(layer)].is_locked`; the callers keep the index within the layers.
unfoldable pub is_locked_layer : ℤ → List LayerSnapshot → Bool
is_locked_layer (negsuc n) layers = false
is_locked_layer (pos n) layers = elim (get_elem? layers n) [
  | none ↦ false
  | some layer ↦ layer.is_locked
]

-- The SDK functions that the creation needs.
unfoldable pub check_creation : EditSection → CreateRequest → Attempt (Unit {0})
check_creation edit request = elim request.kind [
  | CreateKind.effect ↦
      refuse_if (not edit.create_object) (text "sdk_not_available")
        (text "SDK effect object creation is unavailable")
  | CreateKind.media ↦ do
    path ← of_result (edit.to_wide request.source)
    let is_supported = elim edit.is_support_media_file as (λ s. Bool) [
      | none ↦ false
      | some is_support ↦ is_support path
    ]
    refuse_if (not is_supported || not edit.create_object_from_media_file)
        (text "invalid_media_file") (text "The batch media file is unsupported")
  | CreateKind.alias ↦
      refuse_if (not edit.create_object_from_alias) (text "sdk_not_available")
        (text "SDK alias object creation is unavailable")
]

unfoldable pub plan_batch_create :
    EditSection
    → EditInfo
    → CreateRequest
    → List LayerSnapshot
    → List PlannedObject
    → Attempt (List PlannedObject)
unfolding check_creation
plan_batch_create edit info request layers planned = do
  let sdk_layer = request.layer -ℤ pos 1
  let sdk_start = request.start_frame -ℤ pos 1
  let end = sdk_start +ℤ request.length -ℤ pos 1
  let place : LayerFrame = record { layer = sdk_layer; start = sdk_start; end = end }
  refuse_if
      (not (int_eq request.scene_id info.scene_id)
        || (int_lt request.layer (pos 1)
            || (int_lt info.layer_max sdk_layer
                || (int_lt request.start_frame (pos 1) || int_lt request.length (pos 1)))))
      (text "invalid_argument") (text "The batch creation placement is outside the active scene")
  refuse_if (int_lt maximum_int end) (text "invalid_argument")
      (text "The batch creation placement exceeds the frame range")
  refuse_if (is_locked_layer sdk_layer layers) (text "edit_not_available")
      (text "The batch creation destination layer is locked")
  refuse_if (overlaps_batch_plan none place planned) (text "object_collision")
      (text "The batch creation overlaps the planned timeline state")
  check_creation edit request
  refuse_if (is_some request.name && not edit.set_object_name) (text "sdk_not_available")
      (text "SDK object naming is unavailable")
  let created : PlannedObject = record {
    handle = none;
    position = place;
    is_deleted = false;
    name = none;
    section_frames = [];
  }
  done (planned ++ (created ∷ []))

-- The move of an object, without its own place.
unfoldable pub plan_move :
    EditSection
    → EditInfo
    → ObjectEditRequest
    → List LayerSnapshot
    → List PlannedObject
    → PlannedObject
    → Attempt PlannedObject
plan_move edit info request layers objects planned = do
  let invalid = text "The batch move destination is invalid"
  scene_id ← require request.destination_scene_id (text "invalid_argument") invalid
  layer ← require request.destination_layer (text "invalid_argument") invalid
  start_frame ← require request.destination_start_frame (text "invalid_argument") invalid
  let sdk_layer = layer -ℤ pos 1
  let start = start_frame -ℤ pos 1
  let end = start +ℤ (planned.position.end -ℤ planned.position.start)
  let place : LayerFrame = record { layer = sdk_layer; start = start; end = end }
  refuse_if
      (not (int_eq scene_id info.scene_id)
        || (int_lt layer (pos 1)
            || (int_lt info.layer_max sdk_layer || int_lt start_frame (pos 1))))
      (text "invalid_argument") invalid
  refuse_if (is_locked_layer sdk_layer layers) (text "edit_not_available")
      (text "The batch move destination layer is locked")
  refuse_if (int_lt maximum_int end) (text "invalid_argument")
      (text "The batch move destination exceeds the frame range")
  refuse_if (overlaps_batch_plan planned.handle place objects) (text "object_collision")
      (text "The batch move overlaps the planned timeline state")
  refuse_if (not edit.move_object) (text "sdk_not_available")
      (text "SDK object movement is unavailable")
  let delta = start -ℤ planned.position.start
  done (record planned {
    position = place;
    section_frames = map (λ frame. frame +ℤ delta) planned.section_frames;
  })
