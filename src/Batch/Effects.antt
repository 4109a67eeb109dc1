-- ===== src/Batch/Effects.antt =====
-- The planning of effect and layer edits of a batch in AviUtl2MCP.Bridge/src/sdk_read_facade.cpp. What
-- `copy_object_snapshot` and `find_effect_item_snapshot` read from the editor is an argument.
use aviutl2mcp.Common.{
  ℕ, suc, ◌==◌, Bool, true, false, not, ◌&&◌, ◌||◌, Option, none, some, is_some, List, [], ◌∷◌,
  Bytes, bytes_eq, text, if◌then◌else◌, get_elem?, set, leb, Exception, Result, ok, err,
  invalid_argument, length_error, runtime_error, logic_error, overflow_error, stream_closed,
}
use aviutl2mcp.Common.Ints.{ℤ, pos, above, int_lt, int_eq, ◌-ℤ◌}
use aviutl2mcp.Common.Maps.{bytes_Eq, Map, find, assign}
use aviutl2mcp.Batch.{
  EffectSummary, ObjectSnapshot, LayerSnapshot, ItemValue, EffectItem, set_item, set_state,
  EffectEditRequest, LayerEditRequest, LayerFrame, EditSection, EditInfo, PlannedObject,
}
use aviutl2mcp.Batch.Attempt.{Attempt, done, refused, refuse_if, of_result, require, ◌>>=◌, ◌>>◌}
use aviutl2mcp.Batch.Objects.{find_planned_object, is_locked_layer}
use aviutl2mcp.Batch.Values.{
  Floating, normalize_effect_item_value, encode_effect_item_value, value_eq,
}

-- What the editor shows. `find_object` is the first object of a layer that ends at the frame or
-- behind it; `layer_of` is `copy_layer_snapshot`, `snapshot_of` is `copy_object_snapshot` with the
-- effects, and `effect_handle_count` the number of effect handles that come with it; `item_of` is
-- `find_effect_item_snapshot` for the effect with an index. Each may throw but `find_object`,
-- `get_object_layer_frame` and `layer_of`.
pub record Readings (F : Type 0) : Type 0 where
  pub has_find_object : Bool
  pub has_object_layer_frame : Bool
  pub find_object : (layer frame : ℤ) → Option ℕ
  pub get_object_layer_frame : ℕ → LayerFrame
  pub layer_of : ℕ → LayerSnapshot
  pub snapshot_of : ℕ → Result ObjectSnapshot
  pub effect_handle_count : ℕ → ℕ
  pub item_of : (object index : ℕ) → (item_name : Bytes) → Result (Option (EffectItem F))

-- `batch_planned_effect`.
pub record PlannedEffect (F : Type 0) : Type 0 where
  pub object : ℕ
  pub name : Bytes
  pub occurrence : ℤ
  pub state : EffectSummary
  pub items : Map Bytes (EffectItem F)

unfoldable pub find_occurrence : Bytes → ℤ → List EffectSummary → Option (ℕ × EffectSummary)
find_occurrence name occurrence [] = none
find_occurrence name occurrence (effect ∷ effects) =
    let rest = elim (find_occurrence name occurrence effects) as (λ f. Option (ℕ × EffectSummary)) [
      | none ↦ none
      | some (index, found) ↦ some (suc index, found)
    ] in
    if bytes_eq effect.name name && int_eq effect.occurrence occurrence
    then some (0, effect)
    else rest

module _ {F : Type 0} where
  abbrev is_effect : ℕ → Bytes → ℤ → PlannedEffect F → Bool
  is_effect object name occurrence effect =
      effect.object == object && (bytes_eq effect.name name && int_eq effect.occurrence occurrence)

  unfoldable pub find_planned_effect :
      ℕ → Bytes → ℤ → List (PlannedEffect F) → Option (PlannedEffect F)
  find_planned_effect object name occurrence [] = none
  find_planned_effect object name occurrence (effect ∷ effects) =
      if is_effect object name occurrence effect
      then some effect
      else find_planned_effect object name occurrence effects

  -- A write through the pointer to the planned effect; it is appended where it is new.
  unfoldable pub set_planned_effect :
      PlannedEffect F → List (PlannedEffect F) → List (PlannedEffect F)
  set_planned_effect planned [] = planned ∷ []
  set_planned_effect planned (effect ∷ effects) =
      if is_effect planned.object planned.name planned.occurrence effect
      then planned ∷ effects
      else effect ∷ set_planned_effect planned effects

abbrev changes : Option Bool → Bool → Bool
changes none now = false
changes (some true) now = not now
changes (some false) now = now

abbrev wanted : Option Bool → Bool → Bool
wanted none now = now
wanted (some value) now = value

-- The text of an exception.
abbrev pub what : Exception → Bytes
what (invalid_argument message) = text message
what (length_error message) = text message
what (runtime_error message) = text message
what (logic_error message) = text message
what (overflow_error message) = text message
what stream_closed = []

module _ {F : Type 0} (floating : Floating F) (edit : EditSection) (readings : Readings F) where
  -- The item as the plan has it, or as the editor has it.
  unfoldable pub planned_item : ℕ → ℕ → Bytes → PlannedEffect F → Attempt (EffectItem F)
  planned_item object index item_name planned = elim (find item_name planned.items) [
    | some item ↦ done item
    | none ↦ do
      found ← of_result (readings.item_of object index item_name)
      item ←
          require found (text "invalid_effect_item")
            (text "The batch effect item is missing or read-only")
      refuse_if (not item.is_writable) (text "invalid_effect_item")
          (text "The batch effect item is missing or read-only")
      done item
  ]

  -- The normalized value, once it has been encoded. `std::invalid_argument` is caught.
  unfoldable pub check_value : EffectItem F → ItemValue F → Attempt (ItemValue F)
  check_value item value = elim (normalize_effect_item_value floating item value) [
    | err raised ↦ refused (text "invalid_effect_item") (what raised)
    | ok normalized ↦ elim (encode_effect_item_value floating item normalized) [
      | err raised ↦ refused (text "invalid_effect_item") (what raised)
      | ok encoded ↦ done normalized
    ]
  ]

  abbrev same_value : Option (ItemValue F) → ItemValue F → Bool
  same_value none value = false
  same_value (some known) value = value_eq floating known value

  abbrev put_item : Bytes → EffectItem F → Map Bytes (EffectItem F) → Map Bytes (EffectItem F)
  put_item name item items =
      if is_some (find name items) then assign name item items else (name, item) ∷ items

  -- The branch `set_item`: the planned effect, and the item as it was planned before.
  unfoldable pub plan_set_item :
      EffectEditRequest F
      → (object index : ℕ) → PlannedEffect F
      → Attempt (PlannedEffect F × EffectItem F)
  plan_set_item request object index planned = do
    let missing = text "The batch effect item name and value are required"
    item_name ← require request.item_name (text "invalid_argument") missing
    item_value ← require request.item_value (text "invalid_argument") missing
    item ← planned_item object index item_name planned
    normalized ← check_value item item_value
    let is_noop = same_value item.value normalized
    refuse_if (not is_noop && not edit.set_effect_item_value) (text "sdk_not_available")
        (text "SDK effect item editing is unavailable")
    let items = put_item item_name (record item { value = some normalized }) planned.items
    done (record planned { items = items }, item)

  -- The branch `set_state`.
  unfoldable pub plan_set_state : EffectEditRequest F → PlannedEffect F → Attempt (PlannedEffect F)
  plan_set_state request planned = do
    refuse_if (not (is_some request.is_enabled) && not (is_some request.is_locked))
        (text "invalid_argument") (text "The batch effect state has no properties")
    refuse_if (changes request.is_enabled planned.state.is_enabled && not edit.set_effect_enable)
        (text "sdk_not_available") (text "SDK effect enable editing is unavailable")
    refuse_if (changes request.is_locked planned.state.is_locked && not edit.set_effect_lock)
        (text "sdk_not_available") (text "SDK effect lock editing is unavailable")
    let state = record planned.state {
      is_enabled = wanted request.is_enabled planned.state.is_enabled;
      is_locked = wanted request.is_locked planned.state.is_locked;
    }
    done (record planned { state = state })

  abbrev pub new_effect : ℕ → EffectEditRequest F → EffectSummary → PlannedEffect F
  new_effect object request state = record {
    object = object;
    name = request.effect_name;
    occurrence = request.effect_occurrence;
    state = state;
    items = [];
  }

  abbrev pub or_else : Option (PlannedEffect F) → PlannedEffect F → PlannedEffect F
  or_else none planned = planned
  or_else (some known) planned = known

  -- The planned effect behind the edit, and the effect and the item that it reports.
  unfoldable pub plan_effect_kind :
      EffectEditRequest F
      → (object index : ℕ) → PlannedEffect F
      → Attempt (PlannedEffect F × Option EffectSummary × Option (EffectItem F))
  plan_effect_kind request object index planned = elim request.kind [
    | set_item ↦ do
      (edited, item) ← plan_set_item request object index planned
      done (edited, none, some item)
    | set_state ↦ do
      edited ← plan_set_state request planned
      done (edited, some planned.state, none)
  ]

  unfoldable pub plan_batch_effect_edit :
      EffectEditRequest F
      → (object : ℕ) → List LayerSnapshot
      → List PlannedObject
      → List (PlannedEffect F)
      → Attempt (List (PlannedEffect F) × Option EffectSummary × Option (EffectItem F))
  plan_batch_effect_edit request object layers objects effects = do
    let deleted = text "The batch effect target was deleted by an earlier operation"
    target ← require (find_planned_object (some object) objects) (text "object_not_found") deleted
    refuse_if target.is_deleted (text "object_not_found") deleted
    refuse_if (is_locked_layer target.position.layer layers) (text "edit_not_available")
        (text "The batch effect target layer is locked")
    actual ← of_result (readings.snapshot_of object)
    (index, state) ←
        require (find_occurrence request.effect_name request.effect_occurrence actual.effects)
          (text "invalid_effect_item") (text "The batch effect occurrence was not found")
    refuse_if (leb (readings.effect_handle_count object) index) (text "sdk_query_failed")
        (text "SDK effect handle count did not match the batch target")
    let known = find_planned_effect object request.effect_name request.effect_occurrence effects
    (planned, effect, item) ←
        plan_effect_kind request object index (or_else known (new_effect object request state))
    done (set_planned_effect planned effects, effect, item)

abbrev renames : Option Bytes → Bytes → Bool
renames none now = false
renames (some name) now = not (bytes_eq name now)

abbrev named : Option Bytes → Bytes → Bytes
named none now = now
named (some name) now = name

-- The layers of the plan behind the edit, and the layer as it was.
unfoldable pub plan_batch_layer_edit :
    EditSection
    → EditInfo
    → LayerEditRequest
    → List LayerSnapshot
    → Attempt (List LayerSnapshot × LayerSnapshot)
plan_batch_layer_edit edit info request layers = do
  let outside = text "The batch layer is outside the active scene"
  let other_scene = elim request.scene_id as (λ s. Bool) [
    | none ↦ false
    | some scene_id ↦ not (int_eq scene_id info.scene_id)
  ]
  let sdk_layer = request.layer -ℤ pos 1
  refuse_if (other_scene || (int_lt request.layer (pos 1) || int_lt info.layer_max sdk_layer))
      (text "invalid_argument") outside
  before ← require (get_elem? layers (above sdk_layer)) (text "invalid_argument") outside
  refuse_if (renames request.name before.name && not edit.set_layer_name) (text "sdk_not_available")
      (text "SDK layer naming is unavailable")
  refuse_if (changes request.is_visible before.is_visible && not edit.set_layer_enable)
      (text "sdk_not_available") (text "SDK layer visibility editing is unavailable")
  refuse_if (changes request.is_locked before.is_locked && not edit.set_layer_lock)
      (text "sdk_not_available") (text "SDK layer lock editing is unavailable")
  let planned = record before {
    name = named request.name before.name;
    is_visible = wanted request.is_visible before.is_visible;
    is_locked = wanted request.is_locked before.is_locked;
  }
  done (set layers (above sdk_layer) planned, before)
