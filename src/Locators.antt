-- ===== src/Locators.antt =====
-- AviUtl2MCP.Bridge/src/locator_resolver.cpp and include/aviutl2_mcp/locator_resolver.h: which object
-- of a project a locator stands for.
pub mod Resolution
use aviutl2mcp.Common.{
  ℕ, suc, ◌-◌, ◌^◌, Bool, true, false, not, ◌||◌, Option, none, some, List, [], ◌∷◌, ◌++◌, Bytes,
  bytes_eq, ltb, if◌then◌else◌, length, Result, ok, err, ◌>>=◌, ◌>>◌, throw_if, invalid_argument,
  length_error,
}
use aviutl2mcp.Common.Ints.{ℤ, pos, int_lt, int_eq}
use aviutl2mcp.Ipc.Header.{write_uint32_le}
use aviutl2mcp.Ipc.Utf8.{validate_utf8}
use aviutl2mcp.Ipc.Frame.{calculate_sha256}
use aviutl2mcp.Platform.{Platform, uuid_equals, is_nonzero_uuid}

pub record EffectItemFingerprint : Type 0 where
  pub name : Bytes
  pub type : Bytes

pub record EffectFingerprint : Type 0 where
  pub name : Bytes
  pub items : List EffectItemFingerprint

pub record ObjectCandidate : Type 0 where
  pub scene_id : ℤ
  pub layer : ℤ
  pub start_frame : ℤ
  pub end_frame : ℤ
  pub name : Bytes
  pub alias : Bytes
  pub effects : List EffectFingerprint

pub record ObjectLocator : Type 0 where
  pub instance_id : Bytes
  pub project_generation : Bytes
  pub scene_id : ℤ
  pub layer : ℤ
  pub start_frame : ℤ
  pub end_frame : ℤ
  pub name : Bytes
  pub alias_sha256 : Bytes
  pub effect_signature_sha256 : Bytes

pub data ResolutionStatus : Type 0 where
  resolved instance_mismatch project_mismatch not_found ambiguous : ResolutionStatus

pub record LocatorResolution : Type 0 where
  pub status : ResolutionStatus
  pub candidate_index : Option ℕ

-- What `append_string` puts behind the bytes.
unfoldable pub append_string : Bytes → Bytes → Result Bytes
append_string bytes value = do
  throw_if (ltb (2 ^ 32 - 1) (length value)) (length_error "effect fingerprint string is too large")
  validate_utf8 value
  ok (bytes ++ (write_uint32_le (length value) ++ value))

unfoldable pub append_items : Bytes → List EffectItemFingerprint → Result Bytes
append_items bytes [] = ok bytes
append_items bytes (item ∷ items) = do
  named ← append_string bytes item.name
  typed ← append_string named item.type
  append_items typed items

unfoldable pub append_effects : Bytes → List EffectFingerprint → Result Bytes
append_effects bytes [] = ok bytes
append_effects bytes (effect ∷ effects) = do
  named ← append_string bytes effect.name
  throw_if (ltb (2 ^ 32 - 1) (length effect.items))
      (length_error "effect fingerprint contains too many items")
  listed ← append_items (named ++ write_uint32_le (length effect.items)) effect.items
  append_effects listed effects

unfoldable pub validate_candidate : ObjectCandidate → Result (Unit {0})
validate_candidate candidate = do
  throw_if
      (int_lt candidate.scene_id (pos 0)
        || (int_lt candidate.layer (pos 1)
            || (int_lt candidate.start_frame (pos 1)
                || (int_lt candidate.end_frame candidate.start_frame
                    || ltb 4096 (length candidate.name)))))
      (invalid_argument "object candidate fields were outside locator constraints")
  validate_utf8 candidate.name
  validate_utf8 candidate.alias

-- The first test of `matches`.
unfoldable pub differs : ObjectLocator → ObjectCandidate → Bool
differs locator candidate =
    not (int_eq locator.scene_id candidate.scene_id)
    || (not (int_eq locator.layer candidate.layer)
        || (not (int_eq locator.start_frame candidate.start_frame)
            || (not (int_eq locator.end_frame candidate.end_frame)
                || not (bytes_eq locator.name candidate.name))))

module _ (platform : Platform) where
  unfoldable pub calculate_effect_signature : List EffectFingerprint → Result Bytes
  calculate_effect_signature effects = do
    bytes ← append_effects [] effects
    calculate_sha256 platform.sha256 bytes

  -- The second hash is taken only if the first agrees.
  unfoldable pub matches : ObjectLocator → ObjectCandidate → Result Bool
  matches locator candidate =
      let hashes = (do
        alias_sha256 ← calculate_sha256 platform.sha256 candidate.alias
        let signatures = (do
          signature ← calculate_effect_signature candidate.effects
          ok (bytes_eq locator.effect_signature_sha256 signature))
        if bytes_eq locator.alias_sha256 alias_sha256 then signatures else ok false) in
      if differs locator candidate then ok false else hashes

  unfoldable pub create_object_locator : Bytes → Bytes → ObjectCandidate → Result ObjectLocator
  create_object_locator instance_id project_generation candidate = do
    throw_if
        (not (is_nonzero_uuid platform instance_id)
          || not (is_nonzero_uuid platform project_generation))
        (invalid_argument "locator identity must contain nonzero UUIDs")
    validate_candidate candidate
    alias_sha256 ← calculate_sha256 platform.sha256 candidate.alias
    signature ← calculate_effect_signature candidate.effects
    ok (record {
      instance_id = instance_id;
      project_generation = project_generation;
      scene_id = candidate.scene_id;
      layer = candidate.layer;
      start_frame = candidate.start_frame;
      end_frame = candidate.end_frame;
      name = candidate.name;
      alias_sha256 = alias_sha256;
      effect_signature_sha256 = signature;
    })

  abbrev pub resolution : ResolutionStatus → Option ℕ → LocatorResolution
  resolution status index = record { status = status; candidate_index = index }

  -- The answer behind the loop.
  unfoldable pub conclude : Option ℕ → LocatorResolution
  conclude none = resolution not_found none
  conclude (some index) = resolution resolved (some index)

  -- The loop, from `index` on. `found` is `match`.
  unfoldable pub resolve_loop :
      ObjectLocator → ℕ → Option ℕ → List ObjectCandidate → Result LocatorResolution
  resolve_loop locator index found [] = ok (conclude found)
  resolve_loop locator index found (candidate ∷ candidates) = do
    validate_candidate candidate
    is_match ← matches locator candidate
    let passed = resolve_loop locator (suc index) found candidates
    let first = resolve_loop locator (suc index) (some index) candidates
    if is_match
        then elim found [ none ↦ first | some other ↦ ok (resolution ambiguous none) ]
        else passed

  unfoldable pub resolve_object_locator :
      ObjectLocator → Bytes → Bytes → List ObjectCandidate → Result LocatorResolution
  resolve_object_locator locator current_instance_id current_project_generation candidates =
      let found = resolve_loop locator 0 none candidates in
      if not (uuid_equals platform locator.instance_id current_instance_id)
      then ok (resolution instance_mismatch none)
      else if not (uuid_equals platform locator.project_generation current_project_generation)
      then ok (resolution project_mismatch none)
      else found
