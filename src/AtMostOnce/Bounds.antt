-- ===== src/AtMostOnce/Bounds.antt =====
-- The store of at_most_once_store.cpp never holds more tombstones than its limit.
use aviutl2mcp.Common.{
  ℕ, ◌≤◌, ◌≡◌, ◌∙◌, inl, inr, List, [], ◌∷◌, Bytes, get_elem?, length, if◌then◌else◌, Bool-cases,
  Option-cases, arith, ok,
}
use aviutl2mcp.Platform.{Platform}
use aviutl2mcp.AtMostOnce.{MutationKey, key_Eq, Entry, Limits, Store, erase_cached}
use aviutl2mcp.AtMostOnce.Operations.{sweep, stays, remove_expired, begin_existing, begin_locked}
use aviutl2mcp.AtMostOnce.Methods.{create, tombstone_count, mark_executing, complete}
use aviutl2mcp.AtMostOnce.Steps.{
  Call, begins, marks, completes, step, run, after, begin_cases, Quiet, marks-Quiet, complete-Quiet,
}

length-sweep :
    (now : ℕ) (heap : List Entry) (ts : List (MutationKey × ℕ)) (lru : List MutationKey)
    → length (sweep now heap ts lru).0 ≤ length ts
unfolding sweep
length-sweep now heap [] lru = omega arith
length-sweep now heap ((key, ref) ∷ rest) lru = elim (Option-cases (get_elem? heap ref)) [
  | inl missing ↦ rw (missing, sweep) (omega (arith, length-sweep now heap rest lru))
  | inr (entry, at) ↦ elim (Bool-cases (stays now entry)) [
    | inl keep ↦ rw (at, sweep, keep) (omega (arith, length-sweep now heap rest lru))
    | inr drop ↦
        let lru' = if entry.is_cached then erase_cached entry.key lru else lru in
        rw (at, sweep, drop) (omega (arith, length-sweep now heap rest lru'))
  ]
]

-- The limits of a store, and its bound.
abbrev IsWithin : Limits → Store → Type 0
IsWithin limits store =
    (store.limits ≡ limits) × (length store.tombstones ≤ limits.maximum_tombstones)

module _ (platform : Platform) (limits : Limits) where
  begin_locked-IsWithin :
      (expires_at : ℕ) (key : MutationKey) (payload_hash : Bytes) (store : Store)
      → IsWithin limits store
      → IsWithin limits (begin_locked expires_at key payload_hash store).0
  unfolding begin_locked begin_existing
  begin_locked-IsWithin expires_at key payload_hash store (same, fits) =
      (ground arith, ground (arith, same))

  Quiet-IsWithin :
      (store store' : Store)
      → Quiet platform store store'
      → IsWithin limits store
      → IsWithin limits store'
  Quiet-IsWithin store store' (_, same, limited) (l, fits) = (limited ∙ l, rw same fits)

  step-IsWithin :
      (store : Store) (c : Call) → IsWithin limits store → IsWithin limits (step platform store c)
  unfolding step remove_expired
  step-IsWithin store (begins now key payload_hash) (same, fits) =
      begin_cases platform (IsWithin limits) now key payload_hash store (same, fits)
        λ ms time.
          begin_locked-IsWithin _ key payload_hash (remove_expired now store)
            (same, omega (arith, length-sweep now store.heap store.tombstones store.response_lru))
  step-IsWithin store (marks token) w =
      Quiet-IsWithin store (after store (mark_executing token store))
        (marks-Quiet platform token store) w
  step-IsWithin store (completes token outcome revision response) w =
      Quiet-IsWithin store (after store (complete platform token outcome revision response store))
        (complete-Quiet platform token outcome revision response store) w

  run-IsWithin :
      (cs : List Call) (store : Store)
      → IsWithin limits store
      → IsWithin limits (run platform store cs)
  unfolding run
  run-IsWithin [] store w = w
  run-IsWithin (c ∷ cs) store w = run-IsWithin cs (step platform store c) (step-IsWithin store c w)

-- After any calls on a store that the constructor made, with any clock, the number of tombstones is
-- at most the limit that the constructor was given.
pub tombstone_count_bound :
    (platform : Platform) (server_epoch : Bytes) (limits : Limits) (store : Store) (cs : List Call)
    → create platform server_epoch limits ≡ ok store
    → tombstone_count (run platform store cs) ≤ limits.maximum_tombstones
unfolding create tombstone_count
tombstone_count_bound platform server_epoch limits store cs made =
    (run-IsWithin platform limits cs store (ground arith, ground arith)).1
