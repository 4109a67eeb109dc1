-- ===== src/AtMostOnce/Steps.antt =====
-- The calls of at_most_once_store.cpp as steps of a store, and what each may change.
use aviutl2mcp.Common.{
  ℕ, ◌+◌, ◌*◌, ◌≡◌, ◌≢◌, inl, inr, refl, ◌∙◌, ◌||◌, Option, none, some, List, [], ◌∷◌, Bytes,
  get_elem?, set, get_elem?-last, length, leb, Bool-cases, Option-cases, Result-cases, is_empty,
  get_elem?-set, ==_refl, arith, Result, ok, err,
}
use aviutl2mcp.Common.Maps.{find}
use aviutl2mcp.Ipc.Frame.{calculate_sha256}
use aviutl2mcp.Platform.{Platform}
use aviutl2mcp.AtMostOnce.{
  MutationKey, key_Eq, Entry, Store, BeginResult, accepted, get_uuid_v7_time, maximum_request_age,
}
use aviutl2mcp.AtMostOnce.Operations.{remove_expired, begin_existing, begin_locked, is_completed}
use aviutl2mcp.AtMostOnce.Methods.{
  outside_window, invalid_arguments, begin_at, begin, mark_executing, complete, finished, is_queued,
  entry_of,
}
use aviutl2mcp.AtMostOnce.Heap.{
  Keeps, Keeps-refl, Keeps-set, Keeps-trans, Keeps-append, Tied, Tied-Keeps, cache_response-Keeps,
}

-- A call of a method that changes the store, with the clock's reading where it takes one.
pub data Call : Type 0 where
  begins : ℕ → MutationKey → Bytes → Call
  marks : Option ℕ → Call
  completes : Option ℕ → Bytes → Bytes → Bytes → Call

-- A call that throws leaves the store as it was.
abbrev pub after : Store → Result Store → Store
after store (ok store') = store'
after store (err e) = store

abbrev pub after_begin : Store → Result (Store × BeginResult) → Store
after_begin store (ok (store', result)) = store'
after_begin store (err e) = store

module _ (platform : Platform) where
  unfoldable pub step : Store → Call → Store
  step store (begins now key payload_hash) =
      after_begin store (begin platform now key payload_hash store)
  step store (marks token) = after store (mark_executing token store)
  step store (completes token outcome revision response) =
      after store (complete platform token outcome revision response store)

  unfoldable pub run : Store → List Call → Store
  run store [] = store
  run store (c ∷ cs) = run (step store c) cs

  pub begin_existing-heap :
      (ref : ℕ) (entry : Entry) (payload_hash : Bytes) (store : Store)
      → ((begin_existing ref entry payload_hash store).0.heap ≡ store.heap)
        × ((begin_existing ref entry payload_hash store).0.tombstones ≡ store.tombstones)
        × ((begin_existing ref entry payload_hash store).1.decision ≢ accepted)
  unfolding begin_existing
  begin_existing-heap ref entry payload_hash store = (ground arith, ground arith, λ h. ground arith)

  pub begin_locked-Tied :
      (ms : ℕ) (key : MutationKey) (payload_hash : Bytes) (store : Store)
      → get_uuid_v7_time key.request_id ≡ some ms
      → Tied platform store.heap store.tombstones
      → let store' =
          (begin_locked
            (ms * platform.ticks_per_ms + maximum_request_age * platform.ticks_per_ms)
            key
            payload_hash
            store).0 in
        Tied platform store'.heap store'.tombstones
  unfolding begin_locked
  begin_locked-Tied ms key payload_hash store time tied =
      elim (Option-cases (find key store.tombstones)) [
        | inr (ref, e) ↦ elim (Option-cases (get_elem? store.heap ref)) [
          | inl missing ↦ rw (e, begin_locked, missing) tied
          | inr (entry, at) ↦
              let (h, t, _) = begin_existing-heap ref entry payload_hash store in
              rw (e, begin_locked, at) (rw (h, t) tied)
        ]
        | inl fresh ↦
            elim (Bool-cases (leb store.limits.maximum_tombstones (length store.tombstones))) [
              | inl full ↦ rw (fresh, begin_locked, full) tied
              | inr room ↦
                  rw (fresh, begin_locked, room)
                    (
                      (_, get_elem?-last store.heap _, refl, (ms, time, refl)),
                      Tied-Keeps platform store.heap _ store.tombstones (Keeps-append store.heap _)
                          tied,
                    )
            ]
      ]

  -- `begin` changes the store only through `begin_locked`.
  pub begin_cases {ℓ} :
      (P : Store → Type ℓ) (now : ℕ) (key : MutationKey) (payload_hash : Bytes) (store : Store)
      → P store
      → ((ms : ℕ)
          → get_uuid_v7_time key.request_id ≡ some ms
          → P
              (begin_locked
                (ms * platform.ticks_per_ms + maximum_request_age * platform.ticks_per_ms)
                key
                payload_hash
                (remove_expired now store)).0)
      → P (after_begin store (begin platform now key payload_hash store))
  unfolding begin begin_at
  begin_cases P now key payload_hash store same swept =
      elim (Bool-cases (invalid_arguments platform key payload_hash store)) [
        | inl bad ↦ rw (bad, begin) same
        | inr good ↦ elim (Option-cases (get_uuid_v7_time key.request_id)) [
          | inl undated ↦ rw (good, begin, undated) same
          | inr (ms, time) ↦
              elim (Bool-cases (outside_window platform (ms * platform.ticks_per_ms) now)) [
                | inl out ↦ rw (good, begin, time, begin_at, out) same
                | inr within ↦ rw (good, begin, time, begin_at, within) (swept ms time)
              ]
        ]
      ]

  -- A call that touches no tombstone, key or deadline.
  abbrev pub Quiet : Store → Store → Type 0
  Quiet store store' =
      Keeps store.heap store'.heap
      × (store'.tombstones ≡ store.tombstones)
      × (store'.limits ≡ store.limits)

  pub marks-Quiet :
      (token : Option ℕ) (store : Store) → Quiet store (after store (mark_executing token store))
  unfolding mark_executing
  marks-Quiet none store = (Keeps-refl store.heap, refl, refl)
  marks-Quiet (some ref) store = elim (Option-cases (get_elem? store.heap ref)) [
    | inl missing ↦
        rw (missing, after, entry_of, mark_executing) (Keeps-refl store.heap, refl, refl)
    | inr (entry, at) ↦ elim (Bool-cases (is_queued entry.state)) [
      | inl good ↦
          rw (at, after, entry_of, mark_executing, good)
            (Keeps-set store.heap ref entry _ at refl refl, refl, refl)
      | inr bad ↦ rw (at, after, entry_of, mark_executing, bad) (Keeps-refl store.heap, refl, refl)
    ]
  ]

  pub complete-Quiet :
      (token : Option ℕ) (outcome revision response : Bytes) (store : Store)
      → Quiet store (after store (complete platform token outcome revision response store))
  unfolding complete
  complete-Quiet none outcome revision response store = (Keeps-refl store.heap, refl, refl)
  complete-Quiet (some ref) outcome revision response store =
      elim (Option-cases (get_elem? store.heap ref)) [
        | inl missing ↦ rw (missing, after, entry_of, complete) (Keeps-refl store.heap, refl, refl)
        | inr (entry, at) ↦ elim (Bool-cases (is_empty outcome || is_empty response)) [
          | inl bad ↦ rw (at, after, entry_of, complete, bad) (Keeps-refl store.heap, refl, refl)
          | inr full ↦ elim (Result-cases (calculate_sha256 platform.sha256 response)) [
            | inr (e, failed) ↦
                rw (at, after, entry_of, complete, full, failed) (Keeps-refl store.heap, refl, refl)
            | inl (digest, hashed) ↦ elim (Bool-cases (is_completed entry.state)) [
              | inl again ↦
                  rw (at, after, entry_of, complete, full, hashed, again)
                    (Keeps-refl store.heap, refl, refl)
              | inr first ↦
                  let done = finished entry outcome revision digest in
                  let written : Store = record store { heap = set store.heap ref done } in
                  let (k, t, l) =
                    cache_response-Keeps ref done response written
                      (get_elem?-set store.heap ref ref done entry at ∙ rw ==_refl) in
                  rw (at, after, entry_of, complete, full, hashed, first)
                    (
                      Keeps-trans store.heap written.heap _
                          (Keeps-set store.heap ref entry done at refl refl) k,
                      t,
                      l,
                    )
            ]
          ]
        ]
      ]
