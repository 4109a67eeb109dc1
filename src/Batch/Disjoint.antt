-- ===== src/Batch/Disjoint.antt =====
-- The objects of a plan in AviUtl2MCP.Bridge/src/sdk_read_facade.cpp stay apart under every operation
-- that is planned.
use aviutl2mcp.Common.{
  ℕ, ◌≤◌, ◌≡◌, refl, subst, ap, inl, inr, true, false, Option, none, some, List, [], ◌∷◌, ◌++◌,
  Bool-cases, Option-cases, arith,
}
use aviutl2mcp.Common.Ints.{ℤ, pos, ◌+ℤ◌, ◌-ℤ◌}
use aviutl2mcp.Batch.{
  ObjectSnapshot, LayerSnapshot, move, delete_object, set_name, create_section, delete_section,
  move_section, CreateRequest, ObjectEditKind, ObjectEditRequest, EditSection, EditInfo,
  PlannedObject,
}
use aviutl2mcp.Batch.Attempt.{done, Attempt-cases}
use aviutl2mcp.Batch.Objects.{
  find_planned_object, set_planned_object, overlaps_batch_plan, plan_batch_create, plan_move,
  same_handle,
}
use aviutl2mcp.Batch.Sections.{
  plan_delete, plan_set_name, plan_create_section, plan_delete_section, plan_move_section,
  place_snapshot, plan_kind, plan_batch_object_edit,
}
use aviutl2mcp.Batch.Places.{
  contains, covers, has_handle, to_nat, count, count-append, others, overlaps-free,
  count-set_planned_object, count-others,
}

-- No frame is covered twice, and no handle stands twice in the plan.
pub record IsDisjoint (objects : List PlannedObject) : Type 0 where
  pub apart : (layer frame : ℤ) → count (covers layer frame) objects ≤ 1
  pub distinct : (handle : ℕ) → count (has_handle (some handle)) objects ≤ 1

-- The object that a creation plans.
abbrev new_object : CreateRequest → PlannedObject
new_object request = record {
  handle = none;
  position = record {
    layer = request.layer -ℤ pos 1;
    start = request.start_frame -ℤ pos 1;
    end = request.start_frame -ℤ pos 1 +ℤ request.length -ℤ pos 1;
  };
  is_deleted = false;
  name = none;
  section_frames = [];
}

plan_batch_create-done :
    (edit : EditSection) (info : EditInfo) (request : CreateRequest) (layers : List LayerSnapshot)
    (objects objects' : List PlannedObject)
    → plan_batch_create edit info request layers objects ≡ done objects'
    → (overlaps_batch_plan none (new_object request).position objects ≡ false)
      × (objects ++ (new_object request ∷ []) ≡ objects')
unfolding plan_batch_create
plan_batch_create-done edit info request layers objects objects' h = (ground arith, ground arith)

nobody_excluded :
    (layer frame : ℤ) (objects : List PlannedObject)
    → count (others none layer frame) objects ≡ count (covers layer frame) objects
unfolding count
nobody_excluded layer frame [] = refl
nobody_excluded layer frame (object ∷ objects) = ground (arith, nobody_excluded layer frame objects)

pub create-IsDisjoint :
    (edit : EditSection) (info : EditInfo) (request : CreateRequest) (layers : List LayerSnapshot)
    (objects objects' : List PlannedObject)
    → plan_batch_create edit info request layers objects ≡ done objects'
    → IsDisjoint objects
    → IsDisjoint objects'
unfolding count
create-IsDisjoint edit info request layers objects objects' h d =
    let (free, made) = plan_batch_create-done edit info request layers objects objects' h in
    let added = new_object request in
    subst IsDisjoint made (record {
      apart = λ layer frame.
          rw (count-append (covers layer frame) objects (added ∷ []))
            (elim (Bool-cases (contains layer frame added.position)) [
              | inr elsewhere ↦ ground (arith, elsewhere, d.apart layer frame)
              | inl there ↦ ground (
                arith,
                there,
                overlaps-free none layer frame added.position objects there free,
                nobody_excluded layer frame objects,
              )
            ]);
      distinct = λ handle.
          rw (count-append (has_handle (some handle)) objects (added ∷ []))
            (ground (arith, d.distinct handle));
    })

-- What the plan of one edit does to the object that it is about: it keeps its place, or it moves to
-- one that the others leave free.
data IsEdit (objects : List PlannedObject) (planned edited : PlannedObject) : Type 0 where
  stays :
      edited.handle ≡ planned.handle
      → edited.position ≡ planned.position
      → IsEdit objects planned edited
  moves :
      edited.handle ≡ planned.handle
      → overlaps_batch_plan planned.handle edited.position objects ≡ false
      → IsEdit objects planned edited

module _ (edit : EditSection) (info : EditInfo) (request : ObjectEditRequest)
    (layers : List LayerSnapshot) (objects : List PlannedObject) where
  plan_move-IsEdit :
      (planned edited : PlannedObject)
      → plan_move edit info request layers objects planned ≡ done edited
      → IsEdit objects planned edited
  unfolding plan_move
  plan_move-IsEdit planned edited h = moves (ground arith) (ground arith)

  plan_kind-IsEdit :
      (before : ObjectSnapshot) (planned edited : PlannedObject)
      → plan_kind edit info request layers objects before planned ≡ done edited
      → IsEdit objects planned edited
  unfolding plan_kind plan_delete plan_set_name plan_create_section plan_delete_section
      plan_move_section
  plan_kind-IsEdit before planned edited h = by_kind request.kind refl
    where
      by_kind : (kind : ObjectEditKind) → request.kind ≡ kind → IsEdit objects planned edited
      by_kind move e = plan_move-IsEdit planned edited (ground (arith, h, e))
      by_kind delete_object e = stays (ground (arith, h, e)) (ground (arith, h, e))
      by_kind set_name e = stays (ground (arith, h, e)) (ground (arith, h, e))
      by_kind create_section e = stays (ground (arith, h, e)) (ground (arith, h, e))
      by_kind delete_section e = stays (ground (arith, h, e)) (ground (arith, h, e))
      by_kind move_section e = stays (ground (arith, h, e)) (ground (arith, h, e))

  -- The object that the edit finds, and what it puts in its place.
  plan_batch_object_edit-done :
      (handle : ℕ) (snapshot before : ObjectSnapshot) (objects' : List PlannedObject)
      → plan_batch_object_edit edit info request handle snapshot layers objects
        ≡ done (objects', before)
      → (found : PlannedObject) × (edited : PlannedObject) × (find_planned_object
            (some handle)
            objects
          ≡ some found)
        × (found.is_deleted ≡ false)
        × IsEdit objects (place_snapshot found snapshot).1 edited
        × (set_planned_object (some handle) edited objects ≡ objects')
  unfolding plan_batch_object_edit
  plan_batch_object_edit-done handle snapshot before objects' h =
      elim (Option-cases (find_planned_object (some handle) objects)) [
        | inl missing ↦ absurd (ground arith)
        | inr (found, here) ↦
            let (placed, planned) = place_snapshot found snapshot in
            elim (Attempt-cases (plan_kind edit info request layers objects placed planned)) [
              | inl (edited, e) ↦ (
                found,
                edited,
                here,
                ground arith,
                plan_kind-IsEdit placed planned edited e,
                ground arith,
              )
              | inr (inl (code, message, e)) ↦ absurd (ground arith)
              | inr (inr (x, e)) ↦ absurd (ground arith)
            ]
      ]

  find_planned_object-handle :
      (handle : ℕ) (found : PlannedObject) (all : List PlannedObject)
      → find_planned_object (some handle) all ≡ some found
      → found.handle ≡ some handle
  unfolding find_planned_object
  find_planned_object-handle handle found [] h = absurd (ground arith)
  find_planned_object-handle handle found (object ∷ all) h =
      ground (arith, find_planned_object-handle handle found all)

  -- Where an edited object covers a frame, the others do not.
  edit_leaves_room :
      (handle : ℕ) (snapshot : ObjectSnapshot) (layer frame : ℤ) (found edited : PlannedObject)
      → find_planned_object (some handle) objects ≡ some found
      → found.is_deleted ≡ false
      → IsEdit objects (place_snapshot found snapshot).1 edited
      → IsDisjoint objects
      → covers layer frame edited ≡ true
      → count (others (some handle) layer frame) objects ≡ 0
  unfolding place_snapshot
  edit_leaves_room handle snapshot layer frame found edited here standing (stays hd ps) d c =
      let owned : covers layer frame found ≡ true = ground (arith, c, ps, standing) in
      omega (
        arith,
        count-others handle layer frame found objects here (d.distinct handle),
        d.apart layer frame,
        ap to_nat owned,
      )
  edit_leaves_room handle snapshot layer frame found edited here standing (moves hd free) d c =
      let owner : found.handle ≡ some handle =
        find_planned_object-handle handle found objects here in
      let place : contains layer frame edited.position ≡ true = ground (arith, c) in
      overlaps-free (some handle) layer frame edited.position objects place
        (subst (λ (o : Option ℕ). overlaps_batch_plan o edited.position objects ≡ false) owner free)

  edit_keeps_handle :
      (snapshot : ObjectSnapshot) (found edited : PlannedObject)
      → IsEdit objects (place_snapshot found snapshot).1 edited
      → edited.handle ≡ found.handle
  unfolding place_snapshot
  edit_keeps_handle snapshot found edited (stays hd ps) = hd
  edit_keeps_handle snapshot found edited (moves hd free) = hd

  pub edit-IsDisjoint :
      (handle : ℕ) (snapshot before : ObjectSnapshot) (objects' : List PlannedObject)
      → plan_batch_object_edit edit info request handle snapshot layers objects
        ≡ done (objects', before)
      → IsDisjoint objects
      → IsDisjoint objects'
  edit-IsDisjoint handle snapshot before objects' h d =
      let (found, edited, here, standing, is_edit, written) =
        plan_batch_object_edit-done handle snapshot before objects' h in
      let same = edit_keeps_handle snapshot found edited is_edit in
      subst IsDisjoint written (record {
        apart = λ layer frame. elim (Bool-cases (covers layer frame edited)) [
          | inl c ↦ omega (
            arith,
            count-set_planned_object (covers layer frame) (some handle) found edited objects here,
            count-others handle layer frame found objects here (d.distinct handle),
            edit_leaves_room handle snapshot layer frame found edited here standing is_edit d c,
            ap to_nat c,
          )
          | inr c ↦ omega (
            arith,
            count-set_planned_object (covers layer frame) (some handle) found edited objects here,
            d.apart layer frame,
            ap to_nat c,
          )
        ];
        distinct = λ k. omega (
          arith,
          count-set_planned_object (has_handle (some k)) (some handle) found edited objects here,
          d.distinct k,
          ap (λ (o : Option ℕ). to_nat (same_handle o (some k))) same,
        );
      })
