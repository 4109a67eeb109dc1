-- ===== src/Examples/Effects.antt =====
-- An editor without the effects that AviUtl2MCP.Bridge/src/psd_contract.cpp asks for.
use aviutl2mcp.Common.{◌≡◌, ◌↔◌, true, some, [], All}
use aviutl2mcp.PsdContract.{
  Observation, psd_profile_version, required_effects, required_items, detect_psd_profile,
}
use aviutl2mcp.PsdContract.Profile.{HasEffect, HasItem, detect_psd_profile_iff}

abbrev an_editor : Observation
an_editor = record { version = some psd_profile_version; effects = [] }

detect_psd_profile_iff_example : ((detect_psd_profile an_editor).is_match ≡ true) ↔ (
    (some psd_profile_version ≡ some psd_profile_version)
    × All (HasEffect an_editor) required_effects
    × All (HasItem an_editor) required_items)
detect_psd_profile_iff_example = detect_psd_profile_iff an_editor
