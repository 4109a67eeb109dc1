-- ===== src/Batch.antt =====
-- The requests and results of a batch edit, from AviUtl2MCP.Bridge/include/aviutl2_mcp/sdk_read_facade.h,
-- and the editor as `edit_sdk_batch` of src/sdk_read_facade.cpp sees it: what the SDK's edit section
-- offers, and the state that it is planned on.
pub mod Attempt
pub mod Objects
pub mod Sections
pub mod Values
pub mod Effects
pub mod Scan
pub mod Planning
pub mod Run
pub mod Timeline
pub mod Changes
pub mod Validation
pub mod Facade
pub mod Handler
pub mod Execute
pub mod Report
pub mod Reporting
pub mod Honesty
pub mod Outcome
pub mod Partial
pub mod Preflight
pub mod DryRun
pub mod Response
pub mod Places
pub mod Disjoint
use aviutl2mcp.Common.{ℕ, Bool, Option, List, Bytes, Result}
use aviutl2mcp.Common.Ints.{ℤ}
use aviutl2mcp.Locators.{ObjectCandidate, ObjectLocator}

pub record EffectSummary : Type 0 where
  pub name : Bytes
  pub occurrence : ℤ
  pub is_enabled : Bool
  pub is_locked : Bool

pub record ObjectSnapshot : Type 0 where
  pub candidate : ObjectCandidate
  pub is_selected : Bool
  pub media_path : Option Bytes
  pub section_frames : List ℤ
  pub effects : List EffectSummary

pub record LayerSnapshot : Type 0 where
  pub scene_id : ℤ
  pub layer : ℤ
  pub name : Bytes
  pub is_visible : Bool
  pub is_locked : Bool

-- `sdk_effect_item_value`. A `double` is a value of the type `F`.
pub data ItemValue (F : Type 0) : Type 0 where
  of_bool : Bool → ItemValue F
  of_integer : ℤ → ItemValue F
  of_number : F → ItemValue F
  of_string : Bytes → ItemValue F

pub record EffectItem (F : Type 0) : Type 0 where
  pub name : Bytes
  pub type : Bytes
  pub codec : Bytes
  pub is_writable : Bool
  pub value : Option (ItemValue F)
  pub choices : List Bytes

pub data CreateKind : Type 0 where
  effect media alias : CreateKind

pub record CreateRequest : Type 0 where
  pub kind : CreateKind
  pub source : Bytes
  pub scene_id : ℤ
  pub layer : ℤ
  pub start_frame : ℤ
  pub length : ℤ
  pub name : Option Bytes

pub data ObjectEditKind : Type 0 where
  move delete_object set_name create_section delete_section move_section : ObjectEditKind

pub record ObjectEditRequest : Type 0 where
  pub kind : ObjectEditKind
  pub locator : ObjectLocator
  pub destination_scene_id : Option ℤ
  pub destination_layer : Option ℤ
  pub destination_start_frame : Option ℤ
  pub name : Option Bytes
  pub section_index : Option ℤ
  pub section_frame : Option ℤ

pub data EffectEditKind : Type 0 where
  set_item set_state : EffectEditKind

pub record EffectEditRequest (F : Type 0) : Type 0 where
  pub kind : EffectEditKind
  pub locator : ObjectLocator
  pub effect_name : Bytes
  pub effect_occurrence : ℤ
  pub item_name : Option Bytes
  pub item_value : Option (ItemValue F)
  pub is_enabled : Option Bool
  pub is_locked : Option Bool

pub record LayerEditRequest : Type 0 where
  pub scene_id : Option ℤ
  pub layer : ℤ
  pub name : Option Bytes
  pub is_visible : Option Bool
  pub is_locked : Option Bool

-- `sdk_batch_request_value`.
pub data BatchRequest (F : Type 0) : Type 0 where
  creates : CreateRequest → BatchRequest F
  edits_object : ObjectEditRequest → BatchRequest F
  edits_effect : EffectEditRequest F → BatchRequest F
  edits_layer : LayerEditRequest → BatchRequest F

-- What a result tells of the objects, effects and layers that it is about.
pub data BatchValue (F : Type 0) : Type 0 where
  created : List ObjectSnapshot → BatchValue F
  edited_object : (was_deleted : Bool) → Option ObjectSnapshot → BatchValue F
  edited_effect : Option EffectSummary → Option (EffectItem F) → BatchValue F
  edited_layer : Option LayerSnapshot → BatchValue F

pub record BatchOperationResult (F : Type 0) : Type 0 where
  pub is_ok : Bool
  pub has_changed : Bool
  pub result : BatchValue F
  pub error_code : Bytes
  pub error_message : Bytes

pub record BatchEditResult (F : Type 0) : Type 0 where
  pub is_ok : Bool
  pub has_changed : Bool
  pub operations : List (BatchOperationResult F)
  pub failed_index : Option ℕ
  pub error_code : Bytes
  pub error_message : Bytes

-- `OBJECT_LAYER_FRAME` of the SDK.
pub record LayerFrame : Type 0 where
  pub layer : ℤ
  pub start : ℤ
  pub end : ℤ

-- The functions of the SDK's `EDIT_SECTION` that are there. An object handle is a number; `none` is
-- the null pointer. `is_support_media_file` takes the path that `to_wide` is given, and `to_wide`
-- throws on bytes that are no UTF-8.
pub record EditSection : Type 0 where
  pub create_object : Bool
  pub is_support_media_file : Option (Bytes → Bool)
  pub to_wide : Bytes → Result Bytes
  pub create_object_from_media_file : Bool
  pub create_object_from_alias : Bool
  pub set_object_name : Bool
  pub move_object : Bool
  pub delete_object : Bool
  pub create_object_section : Bool
  pub delete_object_section : Bool
  pub move_object_section : Bool
  pub set_effect_item_value : Bool
  pub set_effect_enable : Bool
  pub set_effect_lock : Bool
  pub set_layer_name : Bool
  pub set_layer_enable : Bool
  pub set_layer_lock : Bool

-- `EDIT_INFO` of the SDK.
pub record EditInfo : Type 0 where
  pub scene_id : ℤ
  pub layer_max : ℤ

-- `batch_planned_object`.
pub record PlannedObject : Type 0 where
  pub handle : Option ℕ
  pub position : LayerFrame
  pub is_deleted : Bool
  pub name : Option Bytes
  pub section_frames : List ℤ
