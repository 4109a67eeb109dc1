-- ===== src/Examples/Batches.antt =====
-- A batch of AviUtl2MCP.Bridge/src/sdk_read_facade.cpp on a scene with one object: a creation behind it,
-- and a layer that is renamed.
use aviutl2mcp.Common.{
  ℕ, suc, ◌≤◌, ◌==◌, ◌≡◌, refl, true, false, ◌&&◌, Option, none, some, List, [], ◌∷◌, bytes_eq,
  if◌then◌else◌, map, ok, arith,
}
use aviutl2mcp.Common.Ints.{pos, int_eq, int_le, ◌+ℤ◌, ◌-ℤ◌}
use aviutl2mcp.Batch.{
  CreateKind, CreateRequest, LayerEditRequest, BatchRequest, creates, edits_layer,
  BatchOperationResult, created, EditSection,
}
use aviutl2mcp.Batch.Objects.{
  plan_batch_create, check_creation, overlaps_batch_plan, collides, is_locked_layer,
}
use aviutl2mcp.Batch.Effects.{Readings, plan_batch_layer_edit}
use aviutl2mcp.Batch.Scan.{
  ObjectPosition, scan_layer, scan_layers, scan_object_handles, initial_object,
}
use aviutl2mcp.Batch.Places.{count, has_handle}
use aviutl2mcp.Batch.Disjoint.{IsDisjoint}
use aviutl2mcp.Batch.Planning.{
  Plan, Scene, plan_operation, plan_round, resolve_operation, get_batch_locator,
}
use aviutl2mcp.Batch.Run.{plan_operations, initial_plan, empty_result, copy_layers, edit_sdk_batch}
use aviutl2mcp.Batch.Timeline.{planned_objects_apart}
use aviutl2mcp.Batch.Report.{Report}
use aviutl2mcp.Batch.Reporting.{edit_sdk_batch-Report}
use aviutl2mcp.Examples.Mutations.{a_platform}

abbrev all_there : EditSection
all_there = record {
  create_object = true;
  is_support_media_file = none;
  to_wide = λ path. ok path;
  create_object_from_media_file = true;
  create_object_from_alias = true;
  set_object_name = true;
  move_object = true;
  delete_object = true;
  create_object_section = true;
  delete_object_section = true;
  move_object_section = true;
  set_effect_item_value = true;
  set_effect_enable = true;
  set_effect_lock = true;
  set_layer_name = true;
  set_layer_enable = true;
  set_layer_lock = true;
}

-- The object 7 on the frames 0 to 9 of the layer 0.
abbrev one_object : Readings ℕ
one_object = record {
  has_find_object = true;
  has_object_layer_frame = true;
  find_object =
      λ layer frame. if int_eq layer (pos 0) && int_le frame (pos 9) then some 7 else none;
  get_object_layer_frame = λ object. record { layer = pos 0; start = pos 0; end = pos 9 };
  layer_of = λ layer. record {
    scene_id = pos 0;
    layer = pos (suc layer);
    name = [];
    is_visible = true;
    is_locked = false;
  };
  snapshot_of = λ object. ok (record {
    candidate = record {
      scene_id = pos 0;
      layer = pos 1;
      start_frame = pos 1;
      end_frame = pos 10;
      name = [];
      alias = [];
      effects = [];
    };
    is_selected = false;
    media_path = none;
    section_frames = [];
    effects = [];
  });
  effect_handle_count = λ object. 0;
  item_of = λ object index name. ok none;
}

abbrev pub a_scene : Scene ℕ
a_scene = record {
  platform = a_platform;
  floating = record {
    is_finite = λ number. true;
    of_int64 = λ integer. 0;
    equals = λ a b. true;
    to_chars = λ number. some [];
  };
  edit = all_there;
  info = record { scene_id = pos 0; layer_max = pos 1 };
  readings = one_object;
  instance_id = b'i' ∷ [];
  project_generation = b'g' ∷ [];
}

abbrev pub behind_it : CreateRequest
behind_it = record {
  kind = CreateKind.effect;
  source = b'T' ∷ [];
  scene_id = pos 0;
  layer = pos 1;
  start_frame = pos 11;
  length = pos 5;
  name = none;
}

abbrev pub a_name : LayerEditRequest
a_name = record {
  scene_id = none;
  layer = pos 2;
  name = some (b'L' ∷ []);
  is_visible = none;
  is_locked = none;
}

abbrev two_operations : List (BatchRequest ℕ)
two_operations = creates behind_it ∷ edits_layer a_name ∷ []

abbrev found_object : ObjectPosition
found_object = record {
  handle = 7;
  position = record { layer = pos 0; start = pos 0; end = pos 9 };
}

scene-scanned : scan_object_handles one_object a_scene.info ≡ ok (found_object ∷ [])
unfolding scan_object_handles scan_layers scan_layer ◌+ℤ◌
scene-scanned = refl

abbrev last_plan : Plan ℕ
last_plan = record {
  objects =
      initial_object found_object
      ∷ (record {
        handle = none;
        position = record { layer = pos 0; start = pos 10; end = pos 14 };
        is_deleted = false;
        name = none;
        section_frames = [];
      })
      ∷ [];
  layers = one_object.layer_of 0 ∷ record (one_object.layer_of 1) { name = b'L' ∷ [] } ∷ [];
  effects = [];
}

batch-planned :
    (plan_operations a_scene
      (found_object ∷ [])
      0
      two_operations
      (initial_plan a_scene (found_object ∷ []))
      empty_result).1
    ≡ some (last_plan, none ∷ none ∷ [])
unfolding plan_operations plan_round resolve_operation get_batch_locator plan_operation
    plan_batch_create check_creation overlaps_batch_plan collides is_locked_layer
    plan_batch_layer_edit copy_layers ◌+ℤ◌ ◌-ℤ◌ bytes_eq
batch-planned = refl

handles-distinct :
    (handle : ℕ) → count (has_handle (some handle)) (map initial_object (found_object ∷ [])) ≤ 1
unfolding count
handles-distinct handle = ground arith

planned_objects_apart_example : IsDisjoint last_plan.objects
planned_objects_apart_example =
    planned_objects_apart a_scene (found_object ∷ []) two_operations last_plan (none ∷ none ∷ [])
      empty_result scene-scanned handles-distinct batch-planned

-- An editor that counts its edits and fails the second.
abbrev pub counted_edit : BatchRequest ℕ → Option ℕ → ℕ → ℕ × BatchOperationResult ℕ
counted_edit request handle edits = (
  suc edits,
  record {
    is_ok = if edits == 0 then true else false;
    has_changed = true;
    result = created [];
    error_code = [];
    error_message = [];
  },
)

edit_sdk_batch-Report_example :
    let (after, result) = edit_sdk_batch counted_edit a_scene false two_operations 0 in
    Report 2 0 after result
edit_sdk_batch-Report_example = edit_sdk_batch-Report counted_edit a_scene false two_operations 0
