-- ===== src/Batch/Sections.antt =====
-- The planning of the edits of one object of a batch in AviUtl2MCP.Bridge/src/sdk_read_facade.cpp: its
-- name, its middle points, its deletion and its move. Section frames are in ascending order.
use aviutl2mcp.Common.{
  ℕ, zero, suc, ◌-◌, Bool, true, false, not, ◌&&◌, ◌||◌, none, some, List, [], ◌∷◌, Bytes, text,
  if◌then◌else◌, length, get_or, set, ltb,
}
use aviutl2mcp.Common.Ints.{ℤ, pos, above, int_lt, int_le, int_eq, ◌+ℤ◌}
use aviutl2mcp.Batch.{
  ObjectSnapshot, LayerSnapshot, move, delete_object, set_name, create_section, delete_section,
  move_section, ObjectEditRequest, EditSection, EditInfo, PlannedObject,
}
use aviutl2mcp.Batch.Attempt.{Attempt, done, refuse_if, require, ◌>>=◌, ◌>>◌}
use aviutl2mcp.Batch.Objects.{find_planned_object, set_planned_object, is_locked_layer, plan_move}

unfoldable pub plan_delete : EditSection → PlannedObject → Attempt PlannedObject
plan_delete edit planned = do
  refuse_if (not edit.delete_object) (text "sdk_not_available")
      (text "SDK object deletion is unavailable")
  done (record planned { is_deleted = true })

unfoldable pub plan_set_name :
    EditSection → ObjectEditRequest → PlannedObject → Attempt PlannedObject
plan_set_name edit request planned = do
  name ← require request.name (text "invalid_argument") (text "The batch object name is required")
  refuse_if (not edit.set_object_name) (text "sdk_not_available")
      (text "SDK object naming is unavailable")
  done (record planned { name = some name })

-- `std::ranges::lower_bound` and `insert`: the frames, and whether the frame was there already.
unfoldable pub insert_frame : ℤ → List ℤ → List ℤ × Bool
insert_frame frame [] = (frame ∷ [], false)
insert_frame frame (f ∷ frames) =
    let (rest, found) = insert_frame frame frames in
    if int_lt f frame
    then (f ∷ rest, found)
    else if int_eq f frame
    then (f ∷ frames, true)
    else (frame ∷ f ∷ frames, false)

-- `before` is the object as the plan has it.
unfoldable pub plan_create_section :
    EditSection
    → ObjectEditRequest
    → (before : ObjectSnapshot) → PlannedObject
    → Attempt PlannedObject
plan_create_section edit request before planned = do
  let outside = text "The batch section frame must be inside the object after its start"
  frame ← require request.section_frame (text "invalid_argument") outside
  refuse_if (int_le frame before.candidate.start_frame || int_lt before.candidate.end_frame frame)
      (text "invalid_argument") outside
  let (frames, found) = insert_frame frame planned.section_frames
  refuse_if (not found && not edit.create_object_section) (text "sdk_not_available")
      (text "SDK object section creation is unavailable")
  done (record planned { section_frames = frames })

-- `erase(begin() + index)`.
unfoldable pub erase_at : ℕ → List ℤ → List ℤ
erase_at index [] = []
erase_at zero (frame ∷ frames) = frames
erase_at (suc index) (frame ∷ frames) = frame ∷ erase_at index frames

-- The index of a middle point: the first frame is the start of the object.
unfoldable pub is_middle_point : ℤ → List ℤ → Bool
is_middle_point index frames = not (int_lt index (pos 1)) && ltb (above index) (length frames)

unfoldable pub plan_delete_section :
    EditSection → ObjectEditRequest → PlannedObject → Attempt PlannedObject
plan_delete_section edit request planned = do
  let none_there = text "The batch section index does not identify a middle point"
  index ← require request.section_index (text "invalid_argument") none_there
  refuse_if (not (is_middle_point index planned.section_frames)) (text "invalid_argument")
      none_there
  refuse_if (not edit.delete_object_section) (text "sdk_not_available")
      (text "SDK object section deletion is unavailable")
  done (record planned { section_frames = erase_at (above index) planned.section_frames })

unfoldable pub plan_move_section :
    EditSection
    → ObjectEditRequest
    → (before : ObjectSnapshot) → PlannedObject
    → Attempt PlannedObject
plan_move_section edit request before planned = do
  let invalid = text "The batch section move parameters are invalid"
  index ← require request.section_index (text "invalid_argument") invalid
  frame ← require request.section_frame (text "invalid_argument") invalid
  refuse_if (not (is_middle_point index planned.section_frames)) (text "invalid_argument") invalid
  let section = above index
  let previous_frame = get_or planned.section_frames (section - 1) (pos 0)
  let beyond = before.candidate.end_frame +ℤ pos 1
  let next_frame = get_or planned.section_frames (suc section) beyond
  let current_frame = get_or planned.section_frames section (pos 0)
  refuse_if (int_le frame previous_frame || int_le next_frame frame) (text "invalid_argument")
      (text "The batch section move cannot cross an adjacent section or object boundary")
  refuse_if (not (int_eq frame current_frame) && not edit.move_object_section)
      (text "sdk_not_available") (text "SDK object section movement is unavailable")
  done (record planned { section_frames = set planned.section_frames section frame })

-- The object of the batch's first state as the plan has it now, and the planned object with what it
-- takes over from that state.
unfoldable pub place_snapshot : PlannedObject → ObjectSnapshot → ObjectSnapshot × PlannedObject
place_snapshot planned snapshot =
    let name = elim planned.name as (λ n. Bytes) [ none ↦ snapshot.candidate.name | some n ↦ n ] in
    let frames = elim planned.section_frames as (λ f. List ℤ) [
      | [] ↦ snapshot.section_frames
      | frame ∷ frames ↦ frame ∷ frames
    ] in
    (
      record snapshot {
        candidate = record snapshot.candidate {
          layer = planned.position.layer +ℤ pos 1;
          start_frame = planned.position.start +ℤ pos 1;
          end_frame = planned.position.end +ℤ pos 1;
          name = name;
        };
        section_frames = frames;
      },
      record planned { name = some name; section_frames = frames },
    )

unfoldable pub plan_kind :
    EditSection
    → EditInfo
    → ObjectEditRequest
    → List LayerSnapshot
    → List PlannedObject
    → (before : ObjectSnapshot) → PlannedObject
    → Attempt PlannedObject
plan_kind edit info request layers objects before planned = elim request.kind [
  | move ↦ plan_move edit info request layers objects planned
  | delete_object ↦ plan_delete edit planned
  | set_name ↦ plan_set_name edit request planned
  | create_section ↦ plan_create_section edit request before planned
  | delete_section ↦ plan_delete_section edit request planned
  | move_section ↦ plan_move_section edit request before planned
]

-- The new plan, and the object as it was planned before.
unfoldable pub plan_batch_object_edit :
    EditSection
    → EditInfo
    → ObjectEditRequest
    → (handle : ℕ) → ObjectSnapshot
    → List LayerSnapshot
    → List PlannedObject
    → Attempt (List PlannedObject × ObjectSnapshot)
plan_batch_object_edit edit info request handle snapshot layers objects = do
  found ←
      require (find_planned_object (some handle) objects) (text "object_not_found")
        (text "The batch target was deleted by an earlier operation")
  refuse_if found.is_deleted (text "object_not_found")
      (text "The batch target was deleted by an earlier operation")
  refuse_if (is_locked_layer found.position.layer layers) (text "edit_not_available")
      (text "The batch target layer is locked in the planned state")
  let (before, planned) = place_snapshot found snapshot
  edited ← plan_kind edit info request layers objects before planned
  done (set_planned_object (some handle) edited objects, before)
