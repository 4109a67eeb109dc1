-- ===== src/Batch/Timeline.antt =====
-- The timeline that `edit_sdk_batch` of AviUtl2MCP.Bridge/src/sdk_read_facade.cpp plans on: the objects
-- that the scan finds do not overlap, and no planned operation makes them.
use aviutl2mcp.Common.{
  ℕ, zero, suc, ◌+◌, ◌≤◌, ◌≡◌, refl, sym, ap, subst, inl, inr, Bool, true, false, ◌&&◌, Option,
  none, some, List, [], ◌∷◌, ◌++◌, map, Bool-cases, Option-cases, arith, ok, >>=-eq-ok,
  Result-cases,
}
use aviutl2mcp.Common.Ints.{
  ℤ, pos, int_le, int_eq, ◌+ℤ◌, int_lt_parts, int_add, eq_of-int_eq, int_eq_refl,
}
use aviutl2mcp.Batch.{
  LayerFrame, BatchRequest, creates, edits_object, edits_effect, edits_layer, BatchOperationResult,
  BatchEditResult, EditInfo, ObjectSnapshot,
}
use aviutl2mcp.Batch.Attempt.{done, Attempt-cases, >>=-eq-done}
use aviutl2mcp.Batch.Objects.{maximum_int, plan_batch_create}
use aviutl2mcp.Batch.Sections.{plan_batch_object_edit}
use aviutl2mcp.Batch.Effects.{Readings, plan_batch_effect_edit, plan_batch_layer_edit}
use aviutl2mcp.Batch.Scan.{
  ObjectPosition, out_of_order, scan_layer, scan_layers, scan_object_handles, initial_object,
  layer_count, maximum_timeline_scan,
}
use aviutl2mcp.Batch.Places.{contains, covers, has_handle, to_nat, count, count-append}
use aviutl2mcp.Batch.Disjoint.{IsDisjoint, create-IsDisjoint, edit-IsDisjoint}
use aviutl2mcp.Batch.Planning.{Plan, Scene, plan_operation, plan_round, resolve_operation}
use aviutl2mcp.Batch.Run.{plan_operations, initial_plan, push_operation}

map-append : {A B : Type 0} (f : A → B) (xs ys : List A) → map f (xs ++ ys) ≡ map f xs ++ map f ys
map-append f [] ys = refl
map-append f (x ∷ xs) ys = ap (◌∷◌ (f x)) (map-append f xs ys)

-- An object in order covers only frames of its layer from the frame that was searched from on, and
-- no frame that is searched from behind it.
covers_in_order :
    (layer search_frame l f : ℤ) (position : LayerFrame)
    → out_of_order layer search_frame position ≡ false
    → to_nat (contains l f position) + to_nat (int_eq layer l && int_le (position.end +ℤ pos 1) f)
      ≤ to_nat (int_eq layer l && int_le search_frame f)
covers_in_order layer search_frame l f position h = ground (
  arith,
  int_lt_parts position.start search_frame,
  int_lt_parts position.end position.start,
  int_lt_parts f position.start,
  int_lt_parts position.end f,
  int_lt_parts f (position.end +ℤ pos 1),
  int_lt_parts f search_frame,
  int_add position.end (pos 1),
  eq_of-int_eq position.layer layer,
  eq_of-int_eq position.layer l,
  eq_of-int_eq layer l,
  int_eq_refl l,
)

module _ {F : Type 0} (readings : Readings F) where
  scan_layer-apart :
      (budget : ℕ) (layer search_frame l f : ℤ) (objects : List ObjectPosition) (left : ℕ)
      → scan_layer readings budget layer search_frame ≡ ok (objects, left)
      → count (covers l f) (map initial_object objects)
        ≤ to_nat (int_eq layer l && int_le search_frame f)
  unfolding scan_layer count
  scan_layer-apart zero layer search_frame l f objects left h = absurd (ground arith)
  scan_layer-apart (suc budget) layer search_frame l f objects left h =
      elim (Option-cases (readings.find_object layer search_frame)) [
        | inl missing ↦
            let nothing : [] ≡ objects = ground (arith, h, missing) in
            rw (sym nothing) (omega arith)
        | inr (object, e) ↦
            let position = readings.get_object_layer_frame object in
            let found : ObjectPosition = record { handle = object; position = position } in
            let ordered = covers_in_order layer search_frame l f position in
            elim (Bool-cases (out_of_order layer search_frame position)) [
              | inl bad ↦ absurd (ground (arith, h, e, bad))
              | inr good ↦ elim (Bool-cases (int_eq position.end maximum_int)) [
                | inl last ↦
                    let only : found ∷ [] ≡ objects = ground (arith, h, e, good, last) in
                    rw (sym only) (omega (arith, ordered good))
                | inr more ↦
                    elim (Result-cases (scan_layer readings budget layer (position.end +ℤ pos 1))) [
                      | inr (raised, failed) ↦ absurd (ground (arith, h, e, good, more, failed))
                      | inl ((rest, left'), scanned) ↦
                          let all : found ∷ rest ≡ objects =
                            ground (arith, h, e, good, more, scanned) in
                          rw (sym all) (
                            omega (
                              arith,
                              ordered good,
                              scan_layer-apart budget layer (position.end +ℤ pos 1) l f rest left'
                                  scanned,
                            ))
                    ]
              ]
            ]
      ]

  one_layer :
      (layer : ℕ) (l f : ℤ)
      → to_nat (int_eq (pos layer) l && int_le (pos 0) f) + to_nat (int_le (pos (suc layer)) l)
        ≤ to_nat (int_le (pos layer) l)
  one_layer layer l f = ground (
    arith,
    int_lt_parts l (pos (suc layer)),
    int_lt_parts l (pos layer),
    eq_of-int_eq (pos layer) l,
  )

  scan_layers-apart :
      (layers layer budget : ℕ) (l f : ℤ) (objects : List ObjectPosition)
      → scan_layers readings layers layer budget ≡ ok objects
      → count (covers l f) (map initial_object objects) ≤ to_nat (int_le (pos layer) l)
  unfolding scan_layers count
  scan_layers-apart zero layer budget l f objects h =
      let nothing : [] ≡ objects = ground arith in rw (sym nothing) (omega arith)
  scan_layers-apart (suc layers) layer budget l f objects h =
      let ((here, left), scanned, h1) =
        >>=-eq-ok (scan_layer readings budget (pos layer) (pos 0)) _ h in
      let (rest, scanned', h2) = >>=-eq-ok (scan_layers readings layers (suc layer) left) _ h1 in
      let all : here ++ rest ≡ objects = ground (arith, h2) in
      rw
        (
          sym all,
          map-append initial_object here rest,
          count-append (covers l f) (map initial_object here) (map initial_object rest),
        )
        (omega (
          arith,
          one_layer layer l f,
          scan_layer-apart budget (pos layer) (pos 0) l f here left scanned,
          scan_layers-apart layers (suc layer) left l f rest scanned',
        ))

  scan-apart :
      (info : EditInfo) (l f : ℤ) (objects : List ObjectPosition)
      → scan_object_handles readings info ≡ ok objects
      → count (covers l f) (map initial_object objects) ≤ 1
  unfolding scan_object_handles
  scan-apart info l f objects h =
      let scanned : scan_layers readings (layer_count info) 0 maximum_timeline_scan ≡ ok objects =
        ground (arith, h) in
      omega (
        arith,
        scan_layers-apart (layer_count info) 0 maximum_timeline_scan l f objects scanned,
        to_nat_le (int_le (pos 0) l),
      )
    where
      to_nat_le : (b : Bool) → to_nat b ≤ 1
      to_nat_le true = omega arith
      to_nat_le false = omega arith

module _ {F : Type 0} (scene : Scene F) where
  plan_operation-IsDisjoint :
      (request : BatchRequest F) (object : Option (ℕ × ObjectSnapshot)) (plan next : Plan F)
      (result : BatchOperationResult F)
      → plan_operation scene request object plan ≡ done (next, result)
      → IsDisjoint plan.objects
      → IsDisjoint next.objects
  unfolding plan_operation
  plan_operation-IsDisjoint (creates request) object plan next result h d =
      let (objects, e, h1) =
        >>=-eq-done (plan_batch_create scene.edit scene.info request plan.layers plan.objects) _
          h in
      let same : objects ≡ next.objects = ground (arith, h1) in
      subst IsDisjoint same
        (create-IsDisjoint scene.edit scene.info request plan.layers plan.objects objects e d)
  plan_operation-IsDisjoint (edits_object request) none plan next result h d =
      absurd (ground (arith, h))
  plan_operation-IsDisjoint (edits_object request) (some (handle, snapshot)) plan next result h d =
      let ((objects, before), e, h1) =
        >>=-eq-done
          (plan_batch_object_edit scene.edit scene.info request handle snapshot plan.layers
            plan.objects)
          _ h in
      let same : objects ≡ next.objects = ground (arith, h1) in
      subst IsDisjoint same (
        edit-IsDisjoint scene.edit scene.info request plan.layers plan.objects handle snapshot
          before objects e d)
  plan_operation-IsDisjoint (edits_effect request) none plan next result h d =
      absurd (ground (arith, h))
  plan_operation-IsDisjoint (edits_effect request) (some (handle, snapshot)) plan next result h d =
      let ((effects, effect, item), e, h1) =
        >>=-eq-done
          (plan_batch_effect_edit scene.floating scene.edit scene.readings request handle
            plan.layers plan.objects plan.effects)
          _ h in
      let same : plan.objects ≡ next.objects = ground (arith, h1) in subst IsDisjoint same d
  plan_operation-IsDisjoint (edits_layer request) object plan next result h d =
      let ((layers, before), e, h1) =
        >>=-eq-done (plan_batch_layer_edit scene.edit scene.info request plan.layers) _ h in
      let same : plan.objects ≡ next.objects = ground (arith, h1) in subst IsDisjoint same d

  plan_round-IsDisjoint :
      (initial : List ObjectPosition) (request : BatchRequest F) (plan next : Plan F)
      (result : BatchOperationResult F) (handle : Option ℕ)
      → plan_round scene initial request plan ≡ done (next, result, handle)
      → IsDisjoint plan.objects
      → IsDisjoint next.objects
  unfolding plan_round
  plan_round-IsDisjoint initial request plan next result handle h d =
      let (object, resolves, h1) = >>=-eq-done (resolve_operation scene initial request) _ h in
      let ((next', result'), planned, h2) =
        >>=-eq-done (plan_operation scene request object plan) _ h1 in
      let same : next'.objects ≡ next.objects = ground (arith, h2) in
      subst IsDisjoint same (plan_operation-IsDisjoint request object plan next' result' planned d)

  plan_operations-IsDisjoint :
      (initial : List ObjectPosition) (index : ℕ) (requests : List (BatchRequest F))
      (plan last : Plan F) (handles : List (Option ℕ)) (result : BatchEditResult F)
      → (plan_operations scene initial index requests plan result).1 ≡ some (last, handles)
      → IsDisjoint plan.objects
      → IsDisjoint last.objects
  unfolding plan_operations
  plan_operations-IsDisjoint initial index [] plan last handles result h d =
      let same : plan.objects ≡ last.objects = ground (arith, h) in subst IsDisjoint same d
  plan_operations-IsDisjoint initial index (request ∷ requests) plan last handles result h d =
      elim (Attempt-cases (plan_round scene initial request plan)) [
        | inr (inl (code, message, e)) ↦ absurd (ground (arith, h, e))
        | inr (inr (raised, e)) ↦ absurd (ground (arith, h, e))
        | inl ((next, planned, handle), e) ↦
            elim (Option-cases
              (plan_operations scene initial (suc index) requests next
                (push_operation planned result)).1) [
                  | inl failed ↦ absurd (ground (arith, h, e, failed))
                  | inr ((last', handles'), e') ↦
                      let same : last'.objects ≡ last.objects = ground (arith, h, e, e') in
                      subst IsDisjoint same (
                        plan_operations-IsDisjoint initial (suc index) requests next last' handles'
                          (push_operation planned result) e'
                          (plan_round-IsDisjoint initial request plan next planned handle e d))
                ]
      ]

-- Suppose the SDK has a handle of its own for each object that the scan finds. Then after all
-- operations of a batch have been planned, no frame of a layer is covered by two objects of the plan
-- that are not deleted, nor does a handle stand twice in it.
pub planned_objects_apart :
    {F : Type 0} (scene : Scene F) (initial : List ObjectPosition)
    (requests : List (BatchRequest F)) (last : Plan F) (handles : List (Option ℕ))
    (result : BatchEditResult F)
    → scan_object_handles scene.readings scene.info ≡ ok initial
    → ((handle : ℕ) → count (has_handle (some handle)) (map initial_object initial) ≤ 1)
    → (plan_operations scene initial 0 requests (initial_plan scene initial) result).1
      ≡ some (last, handles)
    → IsDisjoint last.objects
planned_objects_apart scene initial requests last handles result scanned distinct planned =
    plan_operations-IsDisjoint scene initial 0 requests (initial_plan scene initial) last handles
      result planned
      (record {
        apart = λ l f. scan-apart scene.readings scene.info l f initial scanned;
        distinct = distinct;
      })
