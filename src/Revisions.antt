-- ===== src/Revisions.antt =====
-- AviUtl2MCP.Bridge/src/revision_tracker.cpp: the two counters of a project, and the revision texts
-- made of them. Every method holds the mutex from end to end.
pub mod Decimal
pub mod Distinct
use aviutl2mcp.Common.{
  ℕ, zero, suc, ◌+◌, ◌-◌, ◌/◌, ◌%◌, ◌^◌, Bool, not, ◌||◌, List, [], ◌∷◌, ◌++◌, Bytes, bytes_eq, ltb,
  ◌==◌, if◌then◌else◌, Result, ok, err, ◌>>=◌, ◌>>◌, throw_if, invalid_argument, overflow_error,
}
use aviutl2mcp.Platform.{Platform, is_nonzero_uuid}

pub record Tracker : Type 0 where
  pub server_epoch : Bytes
  pub project_generation : Bytes
  pub content_counter : ℕ
  pub view_counter : ℕ

-- `std::numeric_limits<std::uint64_t>::max()`.
abbrev pub maximum_counter : ℕ
maximum_counter = 2 ^ 64 - 1

-- `++counter` on a uint64_t.
abbrev increment : ℕ → ℕ
increment counter = (counter + 1) % 2 ^ 64

-- `std::to_string` of an unsigned number: its decimal digits. Twenty are enough for a uint64_t.
unfoldable pub digits_from : ℕ → ℕ → Bytes → Bytes
digits_from zero n tail = tail
digits_from (suc fuel) n tail =
    let tail' = (b'0' + n % 10) ∷ tail in
    let rest = digits_from fuel (n / 10) tail' in if n / 10 == 0 then tail' else rest

unfoldable pub to_string : ℕ → Bytes
unfolding digits_from
to_string n = digits_from 20 n []

unfoldable pub create_revision : Tracker → ℕ → Bytes
create_revision tracker counter =
    tracker.server_epoch ++ (b':' ∷ (tracker.project_generation ++ (b':' ∷ to_string counter)))

-- The constructor. The project's first generation is a fresh instance id, which Windows makes.
unfoldable pub create : Platform → Bytes → Bytes → Result Tracker
create platform fresh_id server_epoch = do
  throw_if (not (is_nonzero_uuid platform server_epoch))
      (invalid_argument "revision server epoch must be a nonzero UUID")
  ok (record {
    server_epoch = server_epoch;
    project_generation = fresh_id;
    content_counter = 0;
    view_counter = 0;
  })

unfoldable pub reset_project : Platform → Bytes → Tracker → Result Tracker
reset_project platform project_generation tracker = do
  throw_if (not (is_nonzero_uuid platform project_generation))
      (invalid_argument "project generation must be a nonzero UUID")
  ok (record tracker {
    project_generation = project_generation;
    content_counter = 0;
    view_counter = 0;
  })

unfoldable pub content_revision : Tracker → Bytes
content_revision tracker = create_revision tracker tracker.content_counter

unfoldable pub view_revision : Tracker → Bytes
view_revision tracker = create_revision tracker tracker.view_counter

unfoldable pub revisions : Tracker → Bytes × Bytes
revisions tracker =
    (create_revision tracker tracker.content_counter, create_revision tracker tracker.view_counter)

unfoldable pub matches_content : Bytes → Tracker → Bool
matches_content expected_revision tracker =
    bytes_eq expected_revision (create_revision tracker tracker.content_counter)

unfoldable pub matches_view : Bytes → Tracker → Bool
matches_view expected_revision tracker =
    bytes_eq expected_revision (create_revision tracker tracker.view_counter)

unfoldable pub commit_content_change : Tracker → Result (Tracker × Bytes)
commit_content_change tracker = do
  throw_if (tracker.content_counter == maximum_counter)
      (overflow_error "content revision counter overflowed")
  let next = record tracker { content_counter = increment tracker.content_counter }
  ok (next, create_revision next next.content_counter)

unfoldable pub commit_view_change : Tracker → Result (Tracker × Bytes)
commit_view_change tracker = do
  throw_if (tracker.view_counter == maximum_counter)
      (overflow_error "view revision counter overflowed")
  let next = record tracker { view_counter = increment tracker.view_counter }
  ok (next, create_revision next next.view_counter)

unfoldable pub commit_scene_change : Tracker → Result (Tracker × (Bytes × Bytes))
commit_scene_change tracker = do
  throw_if (tracker.content_counter == maximum_counter || tracker.view_counter == maximum_counter)
      (overflow_error "revision counter overflowed")
  let next = record tracker {
    content_counter = increment tracker.content_counter;
    view_counter = increment tracker.view_counter;
  }
  ok (next, (create_revision next next.content_counter, create_revision next next.view_counter))
