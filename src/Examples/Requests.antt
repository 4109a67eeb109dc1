-- ===== src/Examples/Requests.antt =====
-- Requests of AviUtl2MCP.Bridge/src/cancellation_registry.cpp, and the revisions of
-- src/revision_tracker.cpp.
use aviutl2mcp.Common.{All, ◌≡◌, refl, true, false, none, List, [], ◌∷◌, bytes_eq, ok, arith}
use aviutl2mcp.Common.Maps.{find, assign}
use aviutl2mcp.Common.Hex.{hex, hex_digit}
use aviutl2mcp.Cancellation.{
  executing, committed, CancelStatus, too_late, Registry, create_key, state_of, try_begin,
  try_reach_commit_point, is_cancelled, cancel,
}
use aviutl2mcp.Cancellation.Lifecycle.{
  Call, registers, begins, commits, completes, cancels_all, apply, run, Edge, apply-Edge,
  cancelled_never_commits, committed_never_cancelled,
}
use aviutl2mcp.Platform.{is_nonzero_uuid, try_parse_uuid, c_str}
use aviutl2mcp.Examples.Mutations.{a_platform}
use aviutl2mcp.Revisions.{
  Tracker, content_revision, view_revision, matches_content, matches_view, commit_view_change,
  reset_project,
}
use aviutl2mcp.Revisions.Distinct.{
  Change, IsFresh, view, reset, commit, commit_all, matches_iff_unchanged,
}

abbrev executing_7 : Registry
executing_7 = (b'0' ∷ b'7' ∷ [], executing) ∷ (b'0' ∷ b'8' ∷ [], committed) ∷ []

cancel-answered : (cancel (7 ∷ []) executing_7).1.status ≡ CancelStatus.cancelled
unfolding cancel state_of create_key hex hex_digit find assign bytes_eq
cancel-answered = refl

commit-answered : (try_reach_commit_point (7 ∷ []) executing_7).1 ≡ true
unfolding try_reach_commit_point state_of create_key hex hex_digit find assign bytes_eq
commit-answered = refl

abbrev other_calls : List Call
other_calls =
    registers (7 ∷ []) ∷ begins (7 ∷ []) ∷ commits (7 ∷ []) ∷ completes (8 ∷ []) ∷ cancels_all ∷ []

cancelled_never_commits_example :
    ((try_begin (7 ∷ []) (run other_calls (cancel (7 ∷ []) executing_7).0)).1 ≡ false)
    × ((try_reach_commit_point (7 ∷ []) (run other_calls (cancel (7 ∷ []) executing_7).0)).1
        ≡ false)
    × (is_cancelled (7 ∷ []) (run other_calls (cancel (7 ∷ []) executing_7).0) ≡ true)
cancelled_never_commits_example =
    cancelled_never_commits (7 ∷ []) executing_7 other_calls (ground arith) (ground arith)
      cancel-answered

committed_never_cancelled_example :
    ((cancel (7 ∷ []) (run other_calls (try_reach_commit_point (7 ∷ []) executing_7).0)).1
      ≡ record { status = too_late; response_will_follow = true })
    × (is_cancelled (7 ∷ []) (run other_calls (try_reach_commit_point (7 ∷ []) executing_7).0)
        ≡ false)
    × ((try_reach_commit_point
          (7 ∷ [])
          (run other_calls (try_reach_commit_point (7 ∷ []) executing_7).0)).1
        ≡ true)
committed_never_cancelled_example =
    committed_never_cancelled (7 ∷ []) executing_7 other_calls (ground arith) (ground arith)
      commit-answered

apply-Edge_example :
    Edge (state_of (7 ∷ []) executing_7) (state_of (7 ∷ []) (apply (commits (7 ∷ [])) executing_7))
    × (state_of (7 ∷ []) (apply (completes (7 ∷ [])) executing_7) ≡ none)
apply-Edge_example = apply-Edge (commits (7 ∷ [])) (7 ∷ []) executing_7 (ground arith) tt

abbrev a_tracker : Tracker
a_tracker = record {
  server_epoch = b'e' ∷ [];
  project_generation = b'g' ∷ [];
  content_counter = 4;
  view_counter = 2;
}

-- The view changes twice, then another project is loaded and its view changes.
abbrev later_tracker : Tracker
later_tracker = record {
  server_epoch = b'e' ∷ [];
  project_generation = b'h' ∷ [];
  content_counter = 0;
  view_counter = 1;
}

abbrev some_changes : List Change
some_changes = view ∷ view ∷ reset (b'h' ∷ []) ∷ view ∷ []

changes-committed : commit_all a_platform some_changes a_tracker ≡ ok later_tracker
unfolding commit_all commit commit_view_change reset_project is_nonzero_uuid try_parse_uuid c_str
changes-committed = refl

changes-IsFresh : All (IsFresh a_tracker) some_changes
changes-IsFresh = (tt, (tt, ((refl, λ e. ground (arith, e)), (tt, tt))))

matches_iff_unchanged_example :
    (matches_content (content_revision a_tracker) later_tracker ≡ false)
    × (matches_view (view_revision a_tracker) later_tracker ≡ false)
matches_iff_unchanged_example =
    matches_iff_unchanged a_platform some_changes a_tracker later_tracker (omega arith)
      (omega arith) changes-IsFresh changes-committed
