-- ===== src/Locators/Resolution.antt =====
-- What the loop of `resolve_object_locator` in locator_resolver.cpp finds.
use aviutl2mcp.Common.{
  ℕ, suc, ◌≡◌, refl, Bool, true, false, not, Option, none, some, List, [], ◌∷◌, Bytes,
  bytes_eq_refl, if◌then◌else◌, Result, ok, ◌>>=◌, ◌>>◌, ◌||◌, invalid_argument, >>=-eq-ok,
  throw_if, arith,
}
use aviutl2mcp.Common.Ints.{int_eq_refl}
use aviutl2mcp.Ipc.Frame.{calculate_sha256}
use aviutl2mcp.Platform.{Platform, uuid_equals, is_nonzero_uuid}
use aviutl2mcp.Locators.{
  ObjectCandidate, ObjectLocator, resolved, not_found, ambiguous, LocatorResolution,
  validate_candidate, differs, matches, calculate_effect_signature, create_object_locator,
  resolution, conclude, resolve_loop, resolve_object_locator,
}

-- The answer that the list of all matching positions calls for.
abbrev pub classify : List ℕ → LocatorResolution
classify [] = record { status = not_found; candidate_index = none }
classify (i ∷ []) = record { status = resolved; candidate_index = some i }
classify (i ∷ j ∷ rest) = record { status = ambiguous; candidate_index = none }

module _ (platform : Platform) where
  -- The positions of all the candidates that match, where all candidates are valid.
  unfoldable pub all_matches : ObjectLocator → ℕ → List ObjectCandidate → Result (List ℕ)
  all_matches locator index [] = ok []
  all_matches locator index (candidate ∷ candidates) = do
    validate_candidate candidate
    is_match ← matches platform locator candidate
    rest ← all_matches locator (suc index) candidates
    ok (if is_match then index ∷ rest else rest)

  resolve_loop-classify :
      (locator : ObjectLocator) (candidates : List ObjectCandidate) (index : ℕ) (found : Option ℕ)
      (rest : List ℕ)
      → all_matches locator index candidates ≡ ok rest
      → resolve_loop platform locator index found candidates
        ≡ ok (classify (elim found [ none ↦ rest | some i ↦ i ∷ rest ]))
  unfolding resolve_loop all_matches conclude
  resolve_loop-classify locator [] index none rest h = ground arith
  resolve_loop-classify locator [] index (some i) rest h = ground arith
  resolve_loop-classify locator (candidate ∷ candidates) index found rest h =
      let (u, valid, h1) = >>=-eq-ok (validate_candidate candidate) _ h in
      let (is_match, tested, h2) = >>=-eq-ok (matches platform locator candidate) _ h1 in
      let (later, others, h3) = >>=-eq-ok (all_matches locator (suc index) candidates) _ h2 in
      rw (valid, tested)
        (step found is_match later (sym_ok h3)
          (resolve_loop-classify locator candidates (suc index) found later others)
          (resolve_loop-classify locator candidates (suc index) (some index) later others))
    where
      sym_ok : {a b : List ℕ} → ok a ≡ ok b → b ≡ a
      sym_ok e = cc

      step :
          (found : Option ℕ) (is_match : Bool) (later : List ℕ)
          → rest ≡ (if is_match then index ∷ later else later)
          → resolve_loop platform locator (suc index) found candidates
            ≡ ok (classify (elim found [ none ↦ later | some i ↦ i ∷ later ]))
          → resolve_loop platform locator (suc index) (some index) candidates
            ≡ ok (classify (index ∷ later))
          → (if is_match
              then elim found [
                | none ↦ resolve_loop platform locator (suc index) (some index) candidates
                | some other ↦ ok (resolution platform ambiguous none)
              ]
              else resolve_loop platform locator (suc index) found candidates)
            ≡ ok (classify (elim found [ none ↦ rest | some i ↦ i ∷ rest ]))
      step none true later e passed first = rw e first
      step (some i) true later e passed first = rw e refl
      step none false later e passed first = rw e passed
      step (some i) false later e passed first = rw e passed

  -- Where every candidate is valid and its match can be tested, `resolve_object_locator` answers by
  -- the list of all matching positions: none of them, the one position, or that the locator is
  -- ambiguous. The two identities that come first are the client's and the project's.
  pub resolve_object_locator-classify :
      (locator : ObjectLocator) (instance_id project_generation : Bytes)
      (candidates : List ObjectCandidate) (positions : List ℕ)
      → uuid_equals platform locator.instance_id instance_id ≡ true
      → uuid_equals platform locator.project_generation project_generation ≡ true
      → all_matches locator 0 candidates ≡ ok positions
      → resolve_object_locator platform locator instance_id project_generation candidates
        ≡ ok (classify positions)
  unfolding resolve_object_locator
  resolve_object_locator-classify locator instance_id project_generation candidates positions same
        same' all =
      rw (same, same') (resolve_loop-classify locator candidates 0 none positions all)

  -- A locator that `create_object_locator` made of an object matches that object.
  pub matches-create_object_locator :
      (instance_id project_generation : Bytes) (candidate : ObjectCandidate)
      (locator : ObjectLocator)
      → create_object_locator platform instance_id project_generation candidate ≡ ok locator
      → matches platform locator candidate ≡ ok true
  unfolding create_object_locator matches differs
  matches-create_object_locator instance_id project_generation candidate locator h =
      let (_, _, h1) =
        >>=-eq-ok
          (throw_if
            (not (is_nonzero_uuid platform instance_id)
              || not (is_nonzero_uuid platform project_generation))
            (invalid_argument "locator identity must contain nonzero UUIDs"))
          _ h in
      let (_, valid, h2) = >>=-eq-ok (validate_candidate candidate) _ h1 in
      let (alias_sha256, hashed, h3) =
        >>=-eq-ok (calculate_sha256 platform.sha256 candidate.alias) _ h2 in
      let (signature, signed, h4) =
        >>=-eq-ok (calculate_effect_signature platform candidate.effects) _ h3 in
      rw⁻¹ (ok_inj h4) (
        rw
          (
            int_eq_refl, int_eq_refl, int_eq_refl, int_eq_refl, bytes_eq_refl, hashed,
            bytes_eq_refl, signed, bytes_eq_refl,
          )
          refl)
    where
      ok_inj : {a b : ObjectLocator} → ok a ≡ ok b → a ≡ b
      ok_inj e = cc
