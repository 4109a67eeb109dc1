-- ===== src/Batch/Changes.antt =====
-- `create_changes`, `serialize_object` and `add_operation_payload` of
-- AviUtl2MCP.Bridge/src/native_batch_request_handler.cpp: what the JSON text of one operation is made of,
-- and the exceptions on the way. Texts that are the same for every operation are left to the printing.
use aviutl2mcp.Common.{
  ◌==◌, Bool, Option, none, some, List, [], ◌∷◌, ◌++◌, Bytes, text, if◌then◌else◌, length, get_or,
  Result, ok, err, ◌>>=◌, runtime_error,
}
use aviutl2mcp.Common.Ints.{ℤ, pos, above}
use aviutl2mcp.Platform.{Platform}
use aviutl2mcp.Locators.{ObjectLocator, create_object_locator}
use aviutl2mcp.Batch.{
  LayerSnapshot, ObjectSnapshot, EffectSummary, EffectItem, ItemValue, CreateKind, CreateRequest,
  move, delete_object, set_name, create_section, delete_section, move_section, ObjectEditKind,
  ObjectEditRequest, set_item, set_state, EffectEditRequest, LayerEditRequest, BatchRequest,
  creates, edits_object, edits_effect, edits_layer, BatchValue, created, edited_object,
  edited_effect, edited_layer,
}
use aviutl2mcp.Batch.Values.{int_to_string}

pub data Field (F : Type 0) : Type 0 where
  of_text : Bytes → Field F
  of_int : ℤ → Field F
  of_flag : Bool → Field F
  of_value : ItemValue F → Field F

-- `before` or `after` of a change: one value, or an object with named values.
pub data ChangeState (F : Type 0) : Type 0 where
  value : Field F → ChangeState F
  fields : List (Bytes × Field F) → ChangeState F

pub record Change (F : Type 0) : Type 0 where
  pub kind : Bytes
  pub target : Bytes
  pub before : Option (ChangeState F)
  pub after : Option (ChangeState F)

-- `std::get` of an alternative that is not there.
abbrev bad_variant : {A : Type 0} → Result A
bad_variant = err (runtime_error "bad variant access")

-- The dereferencing of an optional that the tests of the batch have seen to be there.
abbrev or_zero : Option ℤ → ℤ
or_zero none = pos 0
or_zero (some number) = number

abbrev or_empty : Option Bytes → Bytes
or_empty none = []
or_empty (some name) = name

-- `value_or`.
abbrev value_or : {A : Type 0} → Option A → A → A
value_or none default = default
value_or (some given) default = given

-- The section that the index names in the frames of the object before.
abbrev section_of : ObjectSnapshot → ObjectEditRequest → ℤ
section_of before request =
    get_or before.section_frames (above (or_zero request.section_index)) (pos 0)

unfoldable pub get_object_change_kind : ObjectEditKind → Bytes
get_object_change_kind move = text "move"
get_object_change_kind delete_object = text "delete"
get_object_change_kind set_name = text "setName"
get_object_change_kind create_section = text "createObjectSection"
get_object_change_kind delete_section = text "deleteObjectSection"
get_object_change_kind move_section = text "moveObjectSection"

module _ {F : Type 0} where
  abbrev in_text : Bytes → Option (ChangeState F)
  in_text bytes = some (value (of_text bytes))

  abbrev in_int : ℤ → Option (ChangeState F)
  in_int number = some (value (of_int number))

  abbrev place_of : (scene_id layer start_frame : ℤ) → Option (ChangeState F)
  place_of scene_id layer start_frame = some (
      fields (
        (text "sceneId", of_int scene_id)
        ∷ (text "layer", of_int layer)
        ∷ (text "startFrame", of_int start_frame)
        ∷ []))

  -- `before` and `after` of an edit of an object.
  unfoldable pub object_states :
      ObjectEditRequest → ObjectSnapshot → Option (ChangeState F) × Option (ChangeState F)
  object_states request before = elim request.kind [
    | move ↦ (
      place_of before.candidate.scene_id before.candidate.layer before.candidate.start_frame,
      place_of (or_zero request.destination_scene_id) (or_zero request.destination_layer)
          (or_zero request.destination_start_frame),
    )
    | delete_object ↦ (in_text (text "present"), in_text (text "deleted"))
    | set_name ↦ (in_text before.candidate.name, in_text (or_empty request.name))
    | create_section ↦ (in_text (text "absent"), in_int (or_zero request.section_frame))
    | delete_section ↦ (in_int (section_of before request), in_text (text "deleted"))
    | move_section ↦ (in_int (section_of before request), in_int (or_zero request.section_frame))
  ]

  unfoldable pub object_change : ObjectEditRequest → ObjectSnapshot → Change F
  object_change request before =
      let (old, new) = object_states request before in
      record {
        kind = get_object_change_kind request.kind;
        target =
            text "object:"
            ++ (int_to_string before.candidate.scene_id
                ++ (text "/"
                    ++ (int_to_string before.candidate.layer
                        ++ (text "/" ++ int_to_string before.candidate.start_frame))));
        before = old;
        after = new;
      }

  abbrev effect_target : EffectEditRequest F → Bytes
  effect_target request =
      text "effect:"
      ++ (request.effect_name ++ (text ":" ++ int_to_string request.effect_occurrence))

  abbrev states_of : (is_enabled is_locked : Bool) → Option (ChangeState F)
  states_of is_enabled is_locked =
      some (
        fields ((text "isEnabled", of_flag is_enabled) ∷ (text "isLocked", of_flag is_locked) ∷ []))

  abbrev old_value : Option (ItemValue F) → Option (ChangeState F)
  old_value none = none
  old_value (some given) = some (value (of_value given))

  unfoldable pub item_change :
      EffectEditRequest F → Option (EffectItem F) → Option (ItemValue F) → Result (Change F)
  item_change request (some item) (some wanted) = ok (record {
    kind = text "setEffectItem";
    target = effect_target request ++ (text "/" ++ or_empty request.item_name);
    before = old_value item.value;
    after = some (value (of_value wanted));
  })
  item_change request (some item) none =
      err (runtime_error "Batch effect item preflight omitted its state")
  item_change request none wanted =
      err (runtime_error "Batch effect item preflight omitted its state")

  unfoldable pub state_change : EffectEditRequest F → Option EffectSummary → Result (Change F)
  state_change request none = err (runtime_error "Batch effect state preflight omitted its state")
  state_change request (some effect) = ok (record {
    kind = text "setEffectState";
    target = effect_target request;
    before = states_of effect.is_enabled effect.is_locked;
    after =
        states_of (value_or request.is_enabled effect.is_enabled)
          (value_or request.is_locked effect.is_locked);
  })

  abbrev layer_of : Bytes → (is_visible is_locked : Bool) → Option (ChangeState F)
  layer_of name is_visible is_locked = some (
      fields (
        (text "name", of_text name)
        ∷ (text "isVisible", of_flag is_visible)
        ∷ (text "isLocked", of_flag is_locked)
        ∷ []))

  unfoldable pub layer_change : LayerEditRequest → LayerSnapshot → Change F
  layer_change request layer = record {
    kind = text "setLayer";
    target =
        text "layer:" ++ (int_to_string layer.scene_id ++ (text "/" ++ int_to_string layer.layer));
    before = layer_of layer.name layer.is_visible layer.is_locked;
    after =
        layer_of (value_or request.name layer.name) (value_or request.is_visible layer.is_visible)
          (value_or request.is_locked layer.is_locked);
  }

  unfoldable pub create_changes : BatchRequest F → (preflight : BatchValue F) → Result (Change F)
  create_changes (creates request) preflight = ok (record {
    kind = text "create";
    target =
        text "scene:"
        ++ (int_to_string request.scene_id
            ++ (text "/layer:"
                ++ (int_to_string request.layer
                    ++ (text "/frame:" ++ int_to_string request.start_frame))));
    before = none;
    after = none;
  })
  create_changes (edits_object request) (edited_object was_deleted none) =
      err (runtime_error "Batch object preflight omitted its target snapshot")
  create_changes (edits_object request) (edited_object was_deleted (some before)) =
      ok (object_change request before)
  create_changes (edits_effect request) (edited_effect effect item) = elim request.kind [
    | set_item ↦ item_change request item request.item_value
    | set_state ↦ state_change request effect
  ]
  create_changes (edits_layer request) (edited_layer none) =
      err (runtime_error "Batch layer preflight omitted its state")
  create_changes (edits_layer request) (edited_layer (some layer)) = ok (layer_change request layer)
  create_changes _ _ = bad_variant

module _ (platform : Platform) (instance_id project_generation : Bytes) where
  -- The locator is the part that is made; the rest is the snapshot itself.
  unfoldable pub serialize_object : ObjectSnapshot → Result (ObjectLocator × ObjectSnapshot)
  serialize_object object = do
    locator ← create_object_locator platform instance_id project_generation object.candidate
    ok (locator, object)

  unfoldable pub serialize_objects :
      List ObjectSnapshot → Result (List (ObjectLocator × ObjectSnapshot))
  serialize_objects [] = ok []
  serialize_objects (object ∷ objects) = do
    serialized ← serialize_object object
    rest ← serialize_objects objects
    ok (serialized ∷ rest)

  abbrev created_payload :
      CreateRequest → List ObjectSnapshot → Result (List (ObjectLocator × ObjectSnapshot))
  created_payload request objects = elim request.kind [
    | CreateKind.alias ↦ serialize_objects objects
    | CreateKind.effect ↦ if length objects == 1 then serialize_objects objects else ok []
    | CreateKind.media ↦ if length objects == 1 then serialize_objects objects else ok []
  ]

  unfoldable pub add_operation_payload :
      {F : Type 0}
      → BatchRequest F
      → (execution : BatchValue F) → Result (List (ObjectLocator × ObjectSnapshot))
  add_operation_payload request (created []) = ok []
  add_operation_payload (creates request) (created (object ∷ objects)) =
      created_payload request (object ∷ objects)
  add_operation_payload (edits_object request) (created (object ∷ objects)) = bad_variant
  add_operation_payload (edits_effect request) (created (object ∷ objects)) = bad_variant
  add_operation_payload (edits_layer request) (created (object ∷ objects)) = bad_variant
  add_operation_payload request (edited_object was_deleted (some object)) =
      serialize_objects (object ∷ [])
  add_operation_payload request (edited_object was_deleted none) = ok []
  add_operation_payload request (edited_effect effect item) = ok []
  add_operation_payload request (edited_layer layer) = ok []
