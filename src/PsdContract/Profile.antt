-- ===== src/PsdContract/Profile.antt =====
-- Which observations `detect_psd_profile` of psd_contract.cpp takes for the supported version.
use aviutl2mcp.Common.{
  ◌≡◌, ◌↔◌, inl, inr, refl, sym, ap, ◌∙◌, true, ◌&&◌, some, List, [], ◌∷◌, ◌++◌, Bytes,
  eq_of-bytes_eq, bytes_eq_refl, is_empty, All, Option-cases, arith,
}
use aviutl2mcp.PsdContract.{
  ObservedItem, ObservedEffect, Observation, RequiredItem, psd_profile_version, required_effects,
  required_items, find_effect, find_item, version_failures, effect_failures, item_failure,
  item_failures, detect_psd_profile,
}

-- The editor has the effect.
abbrev pub HasEffect : Observation → Bytes → Type 0
HasEffect observation name =
    (effect : ObservedEffect) × (find_effect observation.effects name ≡ some effect)

-- The editor has the effect, and the effect has the item with its type.
abbrev pub HasItem : Observation → RequiredItem → Type 0
HasItem observation wanted =
    (effect : ObservedEffect) × (find_effect observation.effects wanted.effect ≡ some effect)
    × (item : ObservedItem) × (find_item effect.items wanted.item ≡ some item)
    × (item.type ≡ wanted.type)

is_empty-append : {A : Type 0} (xs ys : List A) → is_empty (xs ++ ys) ≡ (is_empty xs && is_empty ys)
is_empty-append [] ys = refl
is_empty-append (x ∷ xs) ys = refl

version_iff :
    (observation : Observation)
    → (is_empty (version_failures observation) ≡ true)
      ↔ (observation.version ≡ some psd_profile_version)
unfolding version_failures
version_iff observation = elim (Option-cases observation.version) [
  | inl missing ↦ (λ h. absurd (ground (arith, missing)), λ e. absurd (ground (arith, missing)))
  | inr (version, given) ↦ (
    λ h. ground (arith, given, eq_of-bytes_eq version psd_profile_version),
    λ e. ground (arith, e, bytes_eq_refl psd_profile_version),
  )
]

effects_iff :
    (observation : Observation) (names : List Bytes)
    → (is_empty (effect_failures observation names) ≡ true) ↔ All (HasEffect observation) names
unfolding effect_failures
effects_iff observation [] = (λ h. tt, λ h. refl)
effects_iff observation (name ∷ names) =
    let rest = effects_iff observation names in
    elim (Option-cases (find_effect observation.effects name)) [
      | inl missing ↦
          (λ h. absurd (ground (arith, missing)), λ h. absurd (ground (arith, missing, h.0.1)))
      | inr (effect, found) ↦ (
        λ h. ((effect, found), rest.0 (ground (arith, found))),
        λ h. rw (is_empty, effect_failures, found) (rest.1 h.1),
      )
    ]

-- What an effect that is there has of a required item.
item_iff :
    (effect : ObservedEffect) (wanted : RequiredItem)
    → (is_empty (item_failure effect wanted) ≡ true) ↔ (
        (item : ObservedItem) × (find_item effect.items wanted.item ≡ some item)
        × (item.type ≡ wanted.type))
unfolding item_failure
item_iff effect wanted = elim (Option-cases (find_item effect.items wanted.item)) [
  | inl missing ↦
      (λ h. absurd (ground (arith, missing)), λ h. absurd (ground (arith, missing, h.1)))
  | inr (item, found) ↦ (
    λ h. (item, found, ground (arith, found, eq_of-bytes_eq item.type wanted.type)),
    λ h.
        let same : item ≡ h.0 = ground (arith, found, h.1) in
        let typed : item.type ≡ wanted.type = ap (λ i. i.type) same ∙ h.2 in
        ground (arith, found, typed, bytes_eq_refl wanted.type),
  )
]

items_iff :
    (observation : Observation) (wanted : List RequiredItem)
    → All (λ w. HasEffect observation w.effect) wanted
    → (is_empty (item_failures observation wanted) ≡ true) ↔ All (HasItem observation) wanted
unfolding item_failures
items_iff observation [] h = (λ e. tt, λ e. refl)
items_iff observation (w ∷ wanted) ((effect, found), h) =
    let rest = items_iff observation wanted h in
    let one = item_iff effect w in
    let both = is_empty-append (item_failure effect w) (item_failures observation wanted) in
    (
      λ e.
          let here : is_empty (item_failure effect w) ≡ true = ground (arith, found, both) in
          let later : is_empty (item_failures observation wanted) ≡ true =
            ground (arith, found, both) in
          let (item, held, typed) = one.0 here in
          ((effect, found, item, held, typed), rest.0 later),
      λ ((effect', found', item, held, typed), later).
          let same : effect' ≡ effect = ground (arith, found, found') in
          let here : is_empty (item_failure effect w) ≡ true =
            one.1 (item, ap (λ f. find_item f.items w.item) (sym same) ∙ held, typed) in
          let there : is_empty (item_failures observation wanted) ≡ true = rest.1 later in
          ground (arith, found, both, here, there),
    )

-- The effects of the required items are required themselves.
required_items-HasEffect :
    (observation : Observation)
    → All (HasEffect observation) required_effects
    → All (λ w. HasEffect observation w.effect) required_items
unfolding required_effects required_items
required_items-HasEffect observation (setup, (file, (voice, _))) =
    (file, (file, (file, (file, (file, (file, (voice, (voice, (voice, tt)))))))))

-- `detect_psd_profile` finds the supported profile exactly if the version is the supported one, every
-- required effect is there, and every required item is there in its effect with its type.
pub detect_psd_profile_iff :
    (observation : Observation)
    → ((detect_psd_profile observation).is_match ≡ true) ↔ (
        (observation.version ≡ some psd_profile_version)
        × All (HasEffect observation) required_effects
        × All (HasItem observation) required_items)
unfolding detect_psd_profile
detect_psd_profile_iff observation =
    let version = version_iff observation in
    let effects = effects_iff observation required_effects in
    let all =
      is_empty-append (version_failures observation) (
        effect_failures observation required_effects ++ item_failures observation required_items) in
    let others =
      is_empty-append (effect_failures observation required_effects)
        (item_failures observation required_items) in
    (
      λ h.
          let good : is_empty (version_failures observation) ≡ true = ground (arith, all, others) in
          let complete : is_empty (effect_failures observation required_effects) ≡ true =
            ground (arith, all, others) in
          let typed : is_empty (item_failures observation required_items) ≡ true =
            ground (arith, all, others) in
          let has = effects.0 complete in
          (
            version.0 good,
            has,
            (items_iff observation required_items (required_items-HasEffect observation has)).0
                typed,
          ),
      λ (good, has, typed).
          let items =
            (items_iff observation required_items (required_items-HasEffect observation has)).1
              typed in
          ground (arith, all, others, version.1 good, effects.1 has, items),
    )
