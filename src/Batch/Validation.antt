-- ===== src/Batch/Validation.antt =====
-- The tests that `sdk_read_facade::edit_batch` of AviUtl2MCP.Bridge/src/sdk_read_facade.cpp makes on a
-- batch before it calls the editor.
use aviutl2mcp.Common.{
  ℕ, ◌*◌, ◌==◌, Bool, true, false, not, ◌&&◌, ◌||◌, Option, none, some, is_some, List, [], ◌∷◌,
  Bytes, bytes_eq, text, if◌then◌else◌, length, is_empty, ltb,
}
use aviutl2mcp.Common.Ints.{ℤ, pos, int_lt}
use aviutl2mcp.Platform.{Platform, uuid_equals, is_nonzero_uuid}
use aviutl2mcp.Locators.{ObjectLocator}
use aviutl2mcp.Batch.{
  CreateKind, CreateRequest, move, delete_object, set_name, create_section, delete_section,
  move_section, ObjectEditRequest, set_item, set_state, EffectEditRequest, LayerEditRequest,
  BatchRequest, creates, edits_object, edits_effect, edits_layer,
}
use aviutl2mcp.Batch.Attempt.{Attempt, done, refuse_if, ◌>>=◌, ◌>>◌}
use aviutl2mcp.Batch.Values.{has_nul}

-- `sdk_batch_operation`.
pub record BatchOperation (F : Type 0) : Type 0 where
  pub client_operation_id : Bytes
  pub request : BatchRequest F

-- `MAXIMUM_ALIAS_BYTES`.
abbrev pub maximum_alias_bytes : ℕ
maximum_alias_bytes = 1024 * 1024

-- An optional string with a NUL, and an optional number that is missing or below the least one.
abbrev nul_in : Option Bytes → Bool
nul_in none = false
nul_in (some value) = has_nul value

abbrev missing_or_below : ℤ → Option ℤ → Bool
missing_or_below least none = true
missing_or_below least (some value) = int_lt value least

abbrev is_alias : CreateKind → Bool
is_alias CreateKind.alias = true
is_alias _ = false

abbrev negative_in : Option ℤ → Bool
negative_in none = false
negative_in (some value) = int_lt value (pos 0)

abbrev absent : {A : Type 0} → Option A → Bool
absent value = not (is_some value)

-- The creatable effects with exactly the name, from the catalog of effects, which may not be read.
unfoldable pub check_effect_source : (Bytes → Attempt ℕ) → CreateRequest → Attempt (Unit {0})
check_effect_source creatable request = elim request.kind [
  | CreateKind.effect ↦ do
    exact_matches ← creatable request.source
    let message =
        if exact_matches == 0
        then text "The batch effect definition is not creatable"
        else text "The batch effect definition is ambiguous"
    refuse_if (not (exact_matches == 1)) (text "invalid_effect_item") message
  | CreateKind.media ↦ done tt
  | CreateKind.alias ↦ done tt
]

unfoldable pub check_create_request : (Bytes → Attempt ℕ) → CreateRequest → Attempt (Unit {0})
check_create_request creatable request = do
  refuse_if
      (is_empty request.source
        || (has_nul request.source
            || (int_lt request.scene_id (pos 0)
                || (int_lt request.layer (pos 1)
                    || (int_lt request.start_frame (pos 1)
                        || (int_lt request.length (pos 1) || nul_in request.name))))))
      (text "invalid_argument") (text "Batch creation parameters are invalid")
  refuse_if (is_alias request.kind && ltb maximum_alias_bytes (length request.source))
      (text "invalid_argument") (text "Batch alias exceeds the supported size")
  check_effect_source creatable request

unfoldable pub invalid_kind_fields : ObjectEditRequest → Bool
invalid_kind_fields request = elim request.kind [
  | move ↦
      missing_or_below (pos 0) request.destination_scene_id
      || (missing_or_below (pos 1) request.destination_layer
          || missing_or_below (pos 1) request.destination_start_frame)
  | delete_object ↦ false
  | set_name ↦ absent request.name || nul_in request.name
  | create_section ↦ missing_or_below (pos 1) request.section_frame
  | delete_section ↦ missing_or_below (pos 1) request.section_index
  | move_section ↦
      missing_or_below (pos 1) request.section_index
      || missing_or_below (pos 1) request.section_frame
]

unfoldable pub invalid_layer_edit : LayerEditRequest → Bool
invalid_layer_edit request =
    int_lt request.layer (pos 1)
    || (negative_in request.scene_id
        || ((absent request.name && (absent request.is_visible && absent request.is_locked))
            || nul_in request.name))

-- `operation_ids` holds the ids of the operations before.
unfoldable pub contains_id : Bytes → List Bytes → Bool
contains_id id [] = false
contains_id id (known ∷ ids) = bytes_eq known id || contains_id id ids

module _ (platform : Platform) (instance_id project_generation : Bytes) where
  unfoldable pub invalid_locator : ObjectLocator → Bool
  invalid_locator locator =
      not (uuid_equals platform locator.instance_id instance_id)
      || (not (uuid_equals platform locator.project_generation project_generation)
          || (int_lt locator.scene_id (pos 0)
              || (int_lt locator.layer (pos 1)
                  || (int_lt locator.start_frame (pos 1)
                      || int_lt locator.end_frame locator.start_frame))))

  module _ {F : Type 0} where
    unfoldable pub invalid_effect_fields : EffectEditRequest F → Bool
    invalid_effect_fields request = elim request.kind [
      | set_item ↦
          elim request.item_name as (λ n. Bool) [ none ↦ true | some name ↦ is_empty name ]
          || absent request.item_value
      | set_state ↦ absent request.is_enabled && absent request.is_locked
    ]

    unfoldable pub check_request : (Bytes → Attempt ℕ) → BatchRequest F → Attempt (Unit {0})
    check_request creatable (creates request) = check_create_request creatable request
    check_request creatable (edits_object request) =
        refuse_if (invalid_locator request.locator || invalid_kind_fields request)
          (text "invalid_argument") (text "Batch object edit parameters are invalid")
    check_request creatable (edits_effect request) =
        refuse_if
          (invalid_locator request.locator
            || (is_empty request.effect_name
                || (int_lt request.effect_occurrence (pos 0) || invalid_effect_fields request)))
          (text "invalid_argument") (text "Batch effect edit parameters are invalid")
    check_request creatable (edits_layer request) =
        refuse_if (invalid_layer_edit request) (text "invalid_argument")
          (text "Batch layer edit parameters are invalid")

    -- The loop over the operations.
    unfoldable pub check_operations :
        (Bytes → Attempt ℕ)
        → (operation_ids : List Bytes) → List (BatchOperation F)
        → Attempt (Unit {0})
    check_operations creatable ids [] = done tt
    check_operations creatable ids (operation ∷ operations) = do
      let id = operation.client_operation_id
      refuse_if (is_empty id || (ltb 128 (length id) || (has_nul id || contains_id id ids)))
          (text "invalid_argument") (text "Batch operation IDs must be unique bounded strings")
      check_request creatable operation.request
      check_operations creatable (id ∷ ids) operations

    unfoldable pub check_batch : (Bytes → Attempt ℕ) → List (BatchOperation F) → Attempt (Unit {0})
    check_batch creatable operations = do
      refuse_if
          (is_empty operations
            || (ltb 100 (length operations)
                || (not (is_nonzero_uuid platform instance_id)
                    || not (is_nonzero_uuid platform project_generation))))
          (text "invalid_argument") (text "Batch identity or operation count is invalid")
      check_operations creatable [] operations
