-- ===== src/PsdContract.antt =====
-- AviUtl2MCP.Bridge/src/psd_contract.cpp and include/aviutl2_mcp/psd_contract.h: whether the effects
-- that the editor has are those of the supported version of PSDToolKit. A string literal of the source
-- is its UTF-8. The configuration file comes through the file system and a JSON library, and is left
-- out.
pub mod Profile
use Prim.Native.Char.{code}
use Prim.Native.String.{String}
use aviutl2mcp.Common.{
  ℕ, Bool, true, false, not, Option, none, some, List, [], ◌∷◌, ◌++◌, Bytes, bytes_eq,
  if◌then◌else◌, is_empty,
}
use aviutl2mcp.Ipc.Utf8.Scalars.{encode_scalar}

pub record ObservedItem : Type 0 where
  pub name : Bytes
  pub type : Bytes

pub record ObservedEffect : Type 0 where
  pub name : Bytes
  pub items : List ObservedItem

pub record Observation : Type 0 where
  pub version : Option Bytes
  pub effects : List ObservedEffect

pub record Detection : Type 0 where
  pub is_match : Bool
  pub profile : Option Bytes
  pub failures : List Bytes

pub record RequiredItem : Type 0 where
  pub effect : Bytes
  pub item : Bytes
  pub type : Bytes

unfoldable pub utf8 : String → Bytes
utf8 String.[] = []
utf8 (String.◌∷◌ c s) = encode_scalar (code c) ++ utf8 s

unfoldable pub psd_profile_name : Bytes
psd_profile_name = utf8 "ptk2-2.0.0alpha10-ja"

unfoldable pub psd_profile_version : Bytes
psd_profile_version = utf8 "2.0.0alpha10"

unfoldable pub psd_setup_effect : Bytes
psd_setup_effect = utf8 "最初に置くやつ@PSDToolKit"

unfoldable pub psd_file_effect : Bytes
psd_file_effect = utf8 "PSDファイル@PSDToolKit"

unfoldable pub psd_voice_effect : Bytes
psd_voice_effect = utf8 "セリフ準備@PSDToolKit"

abbrev required : Bytes → Bytes → Bytes → RequiredItem
required effect item type = record { effect = effect; item = item; type = type }

unfoldable pub required_effects : List Bytes
required_effects = psd_setup_effect ∷ psd_file_effect ∷ psd_voice_effect ∷ []

unfoldable pub required_items : List RequiredItem
required_items =
    required psd_file_effect (utf8 "PSDファイル") (utf8 "file")
    ∷ required psd_file_effect (utf8 "セーフガード") (utf8 "check")
    ∷ required psd_file_effect (utf8 "タグ") (utf8 "string")
    ∷ required psd_file_effect (utf8 "シーンID") (utf8 "string")
    ∷ required psd_file_effect (utf8 "キャラクターID") (utf8 "string")
    ∷ required psd_file_effect (utf8 "レイヤー") (utf8 "string")
    ∷ required psd_voice_effect (utf8 "キャラクターID") (utf8 "string")
    ∷ required psd_voice_effect (utf8 "テキスト") (utf8 "text")
    ∷ required psd_voice_effect (utf8 "音声ファイル") (utf8 "file")
    ∷ []

unfoldable pub find_effect : List ObservedEffect → Bytes → Option ObservedEffect
find_effect [] name = none
find_effect (effect ∷ effects) name =
    let later = find_effect effects name in if bytes_eq effect.name name then some effect else later

unfoldable pub find_item : List ObservedItem → Bytes → Option ObservedItem
find_item [] name = none
find_item (item ∷ items) name =
    let later = find_item items name in if bytes_eq item.name name then some item else later

-- The failures of the three parts of `detect_psd_profile`, each behind those of the part before.
unfoldable pub version_failures : Observation → List Bytes
version_failures observation = elim observation.version [
  | none ↦ utf8 "version_missing" ∷ []
  | some version ↦
      if not (bytes_eq version psd_profile_version)
      then (utf8 "version_unsupported:expected="
          ++ psd_profile_version
          ++ utf8 ":actual="
          ++ version)
        ∷ []
      else []
]

unfoldable pub effect_failures : Observation → List Bytes → List Bytes
effect_failures observation [] = []
effect_failures observation (name ∷ names) = elim (find_effect observation.effects name) [
  | none ↦ (utf8 "effect_missing:" ++ name) ∷ effect_failures observation names
  | some effect ↦ effect_failures observation names
]

unfoldable pub item_failure : ObservedEffect → RequiredItem → List Bytes
item_failure effect wanted = elim (find_item effect.items wanted.item) [
  | none ↦ (utf8 "item_missing:" ++ wanted.effect ++ utf8 ":" ++ wanted.item) ∷ []
  | some item ↦
      if not (bytes_eq item.type wanted.type)
      then (utf8 "item_type_mismatch:"
          ++ wanted.effect
          ++ utf8 ":"
          ++ wanted.item
          ++ utf8 ":expected="
          ++ wanted.type
          ++ utf8 ":actual="
          ++ item.type)
        ∷ []
      else []
]

unfoldable pub item_failures : Observation → List RequiredItem → List Bytes
item_failures observation [] = []
item_failures observation (wanted ∷ items) = elim (find_effect observation.effects wanted.effect) [
  | none ↦ item_failures observation items
  | some effect ↦ item_failure effect wanted ++ item_failures observation items
]

unfoldable pub detect_psd_profile : Observation → Detection
detect_psd_profile observation =
    let failures =
      version_failures observation
      ++ (effect_failures observation required_effects
          ++ item_failures observation required_items) in
    record {
      is_match = is_empty failures;
      profile = if is_empty failures then some psd_profile_name else none;
      failures = failures;
    }
