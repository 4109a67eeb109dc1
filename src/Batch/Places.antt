-- ===== src/Batch/Places.antt =====
-- Places on the timeline of a plan in AviUtl2MCP.Bridge/src/sdk_read_facade.cpp: how often a frame of a
-- layer is covered, and what the test for an overlap says of it.
use aviutl2mcp.Common.{
  ℕ, ◌+◌, ◌≤◌, ◌≡◌, refl, sym, inl, inr, Bool, true, false, not, ◌&&◌, Option, some, is_some, List,
  [], ◌∷◌, ◌++◌, Bool-cases, arith,
}
use aviutl2mcp.Common.Ints.{ℤ, int_le, int_eq, int_lt_parts, eq_of-int_eq, int_eq_refl}
use aviutl2mcp.Batch.{LayerFrame, PlannedObject}
use aviutl2mcp.Batch.Objects.{
  same_handle, find_planned_object, set_planned_object, collides, overlaps_batch_plan,
}

-- The frame of the layer lies in the place.
abbrev pub contains : ℤ → ℤ → LayerFrame → Bool
contains layer frame place =
    int_eq place.layer layer && (int_le place.start frame && int_le frame place.end)

abbrev pub covers : ℤ → ℤ → PlannedObject → Bool
covers layer frame object = not object.is_deleted && contains layer frame object.position

abbrev pub has_handle : Option ℕ → PlannedObject → Bool
has_handle handle object = is_some handle && same_handle object.handle handle

abbrev pub to_nat : Bool → ℕ
to_nat true = 1
to_nat false = 0

unfoldable pub count : (PlannedObject → Bool) → List PlannedObject → ℕ
count test [] = 0
count test (object ∷ objects) = to_nat (test object) + count test objects

pub count-append :
    (test : PlannedObject → Bool) (xs ys : List PlannedObject)
    → count test (xs ++ ys) ≡ count test xs + count test ys
unfolding count
count-append test [] ys = omega arith
count-append test (x ∷ xs) ys = omega (arith, count-append test xs ys)

-- How often the frame is covered by objects with another handle.
abbrev pub others : Option ℕ → ℤ → ℤ → PlannedObject → Bool
others handle layer frame object = covers layer frame object && not (has_handle handle object)

-- Two places that share a frame collide.
collides_of-contains :
    (ignored : Option ℕ) (layer frame : ℤ) (place : LayerFrame) (object : PlannedObject)
    → contains layer frame place ≡ true
    → collides ignored place object ≡ false
    → others ignored layer frame object ≡ false
unfolding collides
collides_of-contains ignored layer frame place object c h = ground (
  arith,
  int_lt_parts place.end object.position.start,
  int_lt_parts object.position.end place.start,
  int_lt_parts frame object.position.start,
  int_lt_parts object.position.end frame,
  int_lt_parts frame place.start,
  int_lt_parts place.end frame,
  eq_of-int_eq place.layer layer,
  eq_of-int_eq object.position.layer layer,
  int_eq_refl layer,
)

-- Where the test finds no overlap, the frames of the place are free of other objects.
pub overlaps-free :
    (ignored : Option ℕ) (layer frame : ℤ) (place : LayerFrame) (objects : List PlannedObject)
    → contains layer frame place ≡ true
    → overlaps_batch_plan ignored place objects ≡ false
    → count (others ignored layer frame) objects ≡ 0
unfolding overlaps_batch_plan count
overlaps-free ignored layer frame place [] c h = refl
overlaps-free ignored layer frame place (object ∷ objects) c h = ground (
  arith,
  collides_of-contains ignored layer frame place object c,
  overlaps-free ignored layer frame place objects c,
)

-- A write through the pointer replaces one object by the other.
pub count-set_planned_object :
    (test : PlannedObject → Bool) (handle : Option ℕ) (found planned : PlannedObject)
    (objects : List PlannedObject)
    → find_planned_object handle objects ≡ some found
    → count test (set_planned_object handle planned objects) + to_nat (test found)
      ≡ count test objects + to_nat (test planned)
unfolding count find_planned_object set_planned_object
count-set_planned_object test handle found planned [] h = absurd (ground arith)
count-set_planned_object test handle found planned (object ∷ objects) h =
    elim (Bool-cases (same_handle object.handle handle)) [
      | inl same ↦
          let here : object ≡ found = ground (arith, h, same) in
          rw (same, set_planned_object) (rw here (omega arith))
      | inr other ↦
          let later : find_planned_object handle objects ≡ some found = ground (arith, h, other) in
          rw (other, set_planned_object)
            (omega (arith, count-set_planned_object test handle found planned objects later))
    ]

count-no_others :
    (handle : ℕ) (layer frame : ℤ) (objects : List PlannedObject)
    → count (has_handle (some handle)) objects ≡ 0
    → count (covers layer frame) objects ≡ count (others (some handle) layer frame) objects
unfolding count
count-no_others handle layer frame [] u = refl
count-no_others handle layer frame (object ∷ objects) u =
    ground (arith, count-no_others handle layer frame objects)

-- Where the handle is the only one, all that its object covers beside the others is its own.
pub count-others :
    (handle : ℕ) (layer frame : ℤ) (found : PlannedObject) (objects : List PlannedObject)
    → find_planned_object (some handle) objects ≡ some found
    → count (has_handle (some handle)) objects ≤ 1
    → count (covers layer frame) objects
      ≡ count (others (some handle) layer frame) objects + to_nat (covers layer frame found)
unfolding count find_planned_object
count-others handle layer frame found [] h u = absurd (ground arith)
count-others handle layer frame found (object ∷ objects) h u =
    elim (Bool-cases (same_handle object.handle (some handle))) [
      | inl same ↦
          let here : object ≡ found = ground (arith, h, same) in
          let free : count (has_handle (some handle)) objects ≡ 0 = ground (arith, u, same) in
          rw (sym here) (ground (arith, same, count-no_others handle layer frame objects free))
      | inr other ↦
          let later : find_planned_object (some handle) objects ≡ some found =
            ground (arith, h, other) in
          let fewer : count (has_handle (some handle)) objects ≤ 1 = ground (arith, u, other) in
          ground (arith, other, count-others handle layer frame found objects later fewer)
    ]
