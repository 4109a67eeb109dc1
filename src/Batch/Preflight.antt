-- ===== src/Batch/Preflight.antt =====
-- What a dry run of AviUtl2MCP.Bridge/src/sdk_read_facade.cpp reports is what
-- src/native_batch_request_handler.cpp lays out: no snapshot is missing.
use aviutl2mcp.Common.{
  ℕ, ◌≡◌, refl, sym, ap, ◌∙◌, subst, false, Option, none, some, List, ok, arith, Option-cases, inl,
  inr, leb, text,
}
use aviutl2mcp.Batch.{
  BatchRequest, creates, edits_object, edits_effect, edits_layer, BatchOperationResult, BatchValue,
  edited_object, edited_effect, edited_layer, ItemValue, EffectItem, EffectSummary, EditSection,
  LayerSnapshot, PlannedObject, ObjectSnapshot, EffectEditKind, EffectEditRequest, set_item,
  set_state,
}
use aviutl2mcp.Batch.Attempt.{done, require, refuse_if, of_result, >>=-eq-done}
use aviutl2mcp.Batch.Effects.{
  new_effect, or_else, find_planned_effect, find_occurrence, Readings, PlannedEffect,
  plan_batch_layer_edit, plan_batch_effect_edit, plan_effect_kind, plan_set_item, plan_set_state,
}
use aviutl2mcp.Batch.Planning.{Plan, Scene, plan_operation, plan_round, resolve_operation}
use aviutl2mcp.Batch.Scan.{ObjectPosition}
use aviutl2mcp.Batch.Changes.{
  Change, create_changes, object_change, layer_change, item_change, state_change,
}
use aviutl2mcp.Batch.Objects.{find_planned_object, is_locked_layer}
use aviutl2mcp.Batch.Sections.{plan_batch_object_edit}
use aviutl2mcp.Batch.Values.{Floating}

module _ {F : Type 0} where
  -- The change of an operation can be told from what was planned.
  abbrev pub IsTold : BatchRequest F → BatchOperationResult F → Type 0
  IsTold request planned = (change : Change F) × (create_changes request planned.result ≡ ok change)

  tells :
      (request : BatchRequest F) (planned : BatchOperationResult F) (told : BatchValue F)
      (change : Change F)
      → planned.result ≡ told
      → create_changes request told ≡ ok change
      → IsTold request planned
  tells request planned told change same made = (change, ap (create_changes request) same ∙ made)

  plan_set_item-wanted :
      (floating : Floating F) (edit : EditSection) (readings : Readings F)
      (request : EffectEditRequest F) (object index : ℕ) (planned : PlannedEffect F)
      (next : PlannedEffect F × EffectItem F)
      → plan_set_item floating edit readings request object index planned ≡ done next
      → (wanted : ItemValue F) × (request.item_value ≡ some wanted)
  unfolding plan_set_item
  plan_set_item-wanted floating edit readings request object index planned next h =
      elim (Option-cases request.item_value) [
        | inl missing ↦ absurd (ground (arith, h, missing))
        | inr (wanted, given) ↦ (wanted, given)
      ]

  -- What an edit of an effect reports is what its change is told from.
  effect-IsTold :
      (floating : Floating F) (edit : EditSection) (readings : Readings F)
      (request : EffectEditRequest F) (object index : ℕ) (planned next : PlannedEffect F)
      (effect : Option EffectSummary) (item : Option (EffectItem F))
      → plan_effect_kind floating edit readings request object index planned
        ≡ done (next, effect, item)
      → (change : Change F) × (create_changes (edits_effect request) (edited_effect effect item)
          ≡ ok change)
  unfolding plan_effect_kind create_changes item_change state_change
  effect-IsTold floating edit readings request object index planned next effect item h =
      by_kind request.kind h
    where
      by_kind :
          (kind : EffectEditKind)
          → plan_effect_kind floating edit readings
              (record request { kind = kind })
              object
              index
              planned
            ≡ done (next, effect, item)
          → (change : Change F) × (create_changes
                (edits_effect (record request { kind = kind }))
                (edited_effect effect item)
              ≡ ok change)
      by_kind set_item k =
          let wanting = record request { kind = set_item } in
          let ((edited, found), e, k1) =
            >>=-eq-done (plan_set_item floating edit readings wanting object index planned) _ k in
          let (wanted, given) =
            plan_set_item-wanted floating edit readings wanting object index planned (edited, found)
              e in
          let same : item ≡ some found = ground (arith, k1) in rw (same, given) (_, refl)
      by_kind set_state k =
          let wanting = record request { kind = set_state } in
          let (edited, e, k1) =
            >>=-eq-done (plan_set_state floating edit readings wanting planned) _ k in
          let same : effect ≡ some planned.state = ground (arith, k1) in rw same (_, refl)

  plan_batch_effect_edit-IsTold :
      (floating : Floating F) (edit : EditSection) (readings : Readings F)
      (request : EffectEditRequest F) (object : ℕ) (layers : List LayerSnapshot)
      (objects : List PlannedObject) (effects next : List (PlannedEffect F))
      (effect : Option EffectSummary) (item : Option (EffectItem F))
      → plan_batch_effect_edit floating edit readings request object layers objects effects
        ≡ done (next, effect, item)
      → (change : Change F) × (create_changes (edits_effect request) (edited_effect effect item)
          ≡ ok change)
  unfolding plan_batch_effect_edit
  plan_batch_effect_edit-IsTold floating edit readings request object layers objects effects next
        effect item h =
      let deleted = text "The batch effect target was deleted by an earlier operation" in
      let (target, e1, h1) =
        >>=-eq-done
          (require (find_planned_object (some object) objects) (text "object_not_found") deleted) _
          h in
      let (tt1, e2, h2) =
        >>=-eq-done (refuse_if target.is_deleted (text "object_not_found") deleted) _ h1 in
      let (tt2, e3, h3) =
        >>=-eq-done
          (refuse_if (is_locked_layer target.position.layer layers) (text "edit_not_available")
            (text "The batch effect target layer is locked"))
          _ h2 in
      let (actual, e4, h4) = >>=-eq-done (of_result (readings.snapshot_of object)) _ h3 in
      let ((index, state), e5, h5) =
        >>=-eq-done
          (require (find_occurrence request.effect_name request.effect_occurrence actual.effects)
            (text "invalid_effect_item") (text "The batch effect occurrence was not found"))
          _ h4 in
      let (tt3, e6, h6) =
        >>=-eq-done
          (refuse_if (leb (readings.effect_handle_count object) index) (text "sdk_query_failed")
            (text "SDK effect handle count did not match the batch target"))
          _ h5 in
      let known =
        or_else floating edit readings
          (find_planned_effect object request.effect_name request.effect_occurrence effects)
          (new_effect floating edit readings object request state) in
      let ((planned, told, value), e7, h7) =
        >>=-eq-done (plan_effect_kind floating edit readings request object index known) _ h6 in
      let (change, made) =
        effect-IsTold floating edit readings request object index known planned told value e7 in
      let one : told ≡ effect = ground (arith, h7) in
      let two : value ≡ item = ground (arith, h7) in
      (
        change,
        sym (ap (λ t. create_changes (edits_effect request) (edited_effect t item)) one)
            ∙ (sym (ap (λ v. create_changes (edits_effect request) (edited_effect told v)) two)
                ∙ made),
      )

  plan_operation-IsTold :
      (scene : Scene F) (request : BatchRequest F) (object : Option (ℕ × ObjectSnapshot))
      (plan next : Plan F) (planned : BatchOperationResult F)
      → plan_operation scene request object plan ≡ done (next, planned)
      → IsTold request planned
  unfolding plan_operation create_changes
  plan_operation-IsTold scene (creates request) object plan next planned h = (_, refl)
  plan_operation-IsTold scene (edits_object request) none plan next planned h =
      absurd (ground (arith, h))
  plan_operation-IsTold scene (edits_object request) (some (handle, snapshot)) plan next planned h =
      let ((objects, before), e, h1) =
        >>=-eq-done
          (plan_batch_object_edit scene.edit scene.info request handle snapshot plan.layers
            plan.objects)
          _ h in
      let same : planned.result ≡ edited_object false (some before) = ground (arith, h1) in
      tells (edits_object request) planned (edited_object false (some before))
        (object_change request before) same refl
  plan_operation-IsTold scene (edits_effect request) none plan next planned h =
      absurd (ground (arith, h))
  plan_operation-IsTold scene (edits_effect request) (some (handle, snapshot)) plan next planned h =
      let ((effects, effect, item), e, h1) =
        >>=-eq-done
          (plan_batch_effect_edit scene.floating scene.edit scene.readings request handle
            plan.layers plan.objects plan.effects)
          _ h in
      let same : planned.result ≡ edited_effect effect item = ground (arith, h1) in
      let (change, made) =
        plan_batch_effect_edit-IsTold scene.floating scene.edit scene.readings request handle
          plan.layers plan.objects plan.effects effects effect item e in
      tells (edits_effect request) planned (edited_effect effect item) change same made
  plan_operation-IsTold scene (edits_layer request) object plan next planned h =
      let ((layers, before), e, h1) =
        >>=-eq-done (plan_batch_layer_edit scene.edit scene.info request plan.layers) _ h in
      let same : planned.result ≡ edited_layer (some before) = ground (arith, h1) in
      tells (edits_layer request) planned (edited_layer (some before)) (layer_change request before)
        same refl

  pub plan_round-IsTold :
      (scene : Scene F) (initial : List ObjectPosition) (request : BatchRequest F)
      (plan next : Plan F) (planned : BatchOperationResult F) (handle : Option ℕ)
      → plan_round scene initial request plan ≡ done (next, planned, handle)
      → IsTold request planned
  unfolding plan_round
  plan_round-IsTold scene initial request plan next planned handle h =
      let (object, resolves, h1) = >>=-eq-done (resolve_operation scene initial request) _ h in
      let ((next', planned'), plans, h2) =
        >>=-eq-done (plan_operation scene request object plan) _ h1 in
      let same : planned' ≡ planned = ground (arith, h2) in
      subst (IsTold request) same
        (plan_operation-IsTold scene request object plan next' planned' plans)
