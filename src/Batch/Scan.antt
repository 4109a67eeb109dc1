-- ===== src/Batch/Scan.antt =====
-- `scan_object_handles` of AviUtl2MCP.Bridge/src/sdk_read_facade.cpp: the objects of the active scene, by
-- layer and frame, with at most `MAXIMUM_TIMELINE_SCAN` calls of the SDK.
use aviutl2mcp.Common.{
  ℕ, zero, suc, Bool, false, not, ◌||◌, none, some, List, [], ◌∷◌, ◌++◌, if◌then◌else◌, Result, ok,
  err, ◌>>=◌, ◌>>◌, throw_if, runtime_error,
}
use aviutl2mcp.Common.Ints.{ℤ, pos, above, int_lt, int_eq, ◌+ℤ◌}
use aviutl2mcp.Batch.{LayerFrame, EditInfo, PlannedObject}
use aviutl2mcp.Batch.Objects.{maximum_int}
use aviutl2mcp.Batch.Effects.{Readings}

-- `object_handle_position`.
pub record ObjectPosition : Type 0 where
  pub handle : ℕ
  pub position : LayerFrame

abbrev pub maximum_timeline_scan : ℕ
maximum_timeline_scan = 1000000

-- The test on what the SDK says of an object.
abbrev pub out_of_order : ℤ → ℤ → LayerFrame → Bool
out_of_order layer search_frame position =
    not (int_eq position.layer layer)
    || (int_lt position.start search_frame || int_lt position.end position.start)

-- The number of layers from 0 to `layer_max`.
abbrev pub layer_count : EditInfo → ℕ
layer_count info = above (info.layer_max +ℤ pos 1)

module _ {F : Type 0} (readings : Readings F) where
  -- The `while` loop on one layer. `budget` is what `scanned_count` leaves of the limit; what is left
  -- behind the loop comes back beside the objects.
  unfoldable pub scan_layer :
      (budget : ℕ) → (layer search_frame : ℤ) → Result (List ObjectPosition × ℕ)
  scan_layer zero layer search_frame =
      err (runtime_error "SDK object scan exceeded the safety limit")
  scan_layer (suc budget) layer search_frame = elim (readings.find_object layer search_frame) [
    | none ↦ ok ([], budget)
    | some object ↦
        let position = readings.get_object_layer_frame object in
        let found : ObjectPosition = record { handle = object; position = position } in
        let rest = scan_layer budget layer (position.end +ℤ pos 1) in
        let later = (do (objects, left) ← rest; ok (found ∷ objects, left)) in
        if out_of_order layer search_frame position
        then err (runtime_error "SDK object order was invalid")
        else if int_eq position.end maximum_int
        then ok (found ∷ [], budget)
        else later
  ]

  -- The `for` loop over `count` layers from `layer` on.
  unfoldable pub scan_layers : (count : ℕ) → (layer budget : ℕ) → Result (List ObjectPosition)
  unfolding scan_layer
  scan_layers zero layer budget = ok []
  scan_layers (suc count) layer budget = do
    (objects, left) ← scan_layer budget (pos layer) (pos 0)
    rest ← scan_layers count (suc layer) left
    ok (objects ++ rest)

  unfoldable pub scan_object_handles : EditInfo → Result (List ObjectPosition)
  unfolding scan_layers
  scan_object_handles info = do
    throw_if (not readings.has_find_object || not readings.has_object_layer_frame)
        (runtime_error "SDK object enumeration functions are unavailable")
    scan_layers (layer_count info) 0 maximum_timeline_scan

-- The plan of an object that is there.
abbrev pub initial_object : ObjectPosition → PlannedObject
initial_object object = record {
  handle = some object.handle;
  position = object.position;
  is_deleted = false;
  name = none;
  section_frames = [];
}
