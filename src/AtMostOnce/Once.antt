-- ===== src/AtMostOnce/Once.antt =====
-- The promise of at_most_once_store.cpp: under a clock that does not run backwards a mutation is
-- accepted once.
use aviutl2mcp.Common.{
  ℕ, ◌+◌, ◌*◌, ◌≤◌, ◌<◌, ◌≡◌, ◌≢◌, ◌⊎◌, inl, inr, ap, subst, true, false, none, some, is_some, List,
  [], ◌∷◌, Bytes, Bool-cases, Option-cases, arith, ok,
}
use aviutl2mcp.Common.Maps.{find}
use aviutl2mcp.Platform.{Platform}
use aviutl2mcp.AtMostOnce.{
  MutationKey, key_Eq, key_eq_refl, Limits, Store, BeginResult, accepted, get_uuid_v7_time,
  maximum_request_age,
}
use aviutl2mcp.AtMostOnce.Operations.{remove_expired, begin_existing, begin_locked}
use aviutl2mcp.AtMostOnce.Methods.{
  create, outside_window, invalid_arguments, begin_at, begin, mark_executing, complete,
}
use aviutl2mcp.AtMostOnce.Heap.{Deadline, Tied, Tied-Keeps, sweep-Tied, sweep-find}
use aviutl2mcp.AtMostOnce.Steps.{
  Call, begins, marks, completes, after, step, run, begin_locked-Tied, begin_cases, Quiet,
  marks-Quiet, complete-Quiet,
}

-- What no call undoes for a key: it has a tombstone, or the clock is past its deadline.
abbrev Settled : Platform → MutationKey → ℕ → Store → Type 0
Settled platform key now store =
    (is_some (find key store.tombstones) ≡ true) ⊎ ((t : ℕ) × Deadline platform key t × (t < now))

module _ (platform : Platform) where
  -- The clock's readings do not fall, from `now` on; the last one.
  abbrev pub Ordered : ℕ → List Call → Type 0
  Ordered now [] = Unit
  Ordered now (begins now' key payload_hash ∷ cs) = (now ≤ now') × Ordered now' cs
  Ordered now (marks token ∷ cs) = Ordered now cs
  Ordered now (completes token outcome revision response ∷ cs) = Ordered now cs

  abbrev pub last_reading : ℕ → List Call → ℕ
  last_reading now [] = now
  last_reading now (begins now' key payload_hash ∷ cs) = last_reading now' cs
  last_reading now (marks token ∷ cs) = last_reading now cs
  last_reading now (completes token outcome revision response ∷ cs) = last_reading now cs

  module _ (key : MutationKey) where
    abbrev Good : ℕ → Store → Type 0
    Good now store = Tied platform store.heap store.tombstones × Settled platform key now store

    Quiet-Good :
        (now : ℕ) (store store' : Store)
        → Quiet platform store store'
        → Good now store
        → Good now store'
    Quiet-Good now store store' (keeps, same, _) (tied, settled) = (
      rw same (Tied-Keeps platform store.heap store'.heap store.tombstones keeps tied),
      rw same settled,
    )

    begin_locked-find :
        (expires_at : ℕ) (other : MutationKey) (payload_hash : Bytes) (store : Store)
        → is_some (find key store.tombstones) ≡ true
        → is_some (find key (begin_locked expires_at other payload_hash store).0.tombstones) ≡ true
    unfolding begin_locked find begin_existing
    begin_locked-find expires_at other payload_hash store h = ground arith

    later :
        (now now' : ℕ) (store : Store)
        → now ≤ now'
        → Settled platform key now store
        → Settled platform key now' store
    later now now' store h (inl e) = inl e
    later now now' store h (inr (t, d, past)) = inr (t, d, omega arith)

    begin-Good :
        (now now' : ℕ) (other : MutationKey) (payload_hash : Bytes) (store : Store)
        → now ≤ now'
        → Good now store
        → Good now' (step platform store (begins now' other payload_hash))
    unfolding step remove_expired
    begin-Good now now' other payload_hash store h (tied, settled) =
        begin_cases platform (Good now') now' other payload_hash store
          (tied, later now now' store h settled)
          λ ms time. (
            begin_locked-Tied platform ms other payload_hash (remove_expired now' store) time
                (sweep-Tied platform now' store.heap store.tombstones store.response_lru tied),
            settle ms,
          )
      where
        settle :
            (ms : ℕ)
            → Settled platform key now'
                (begin_locked
                  (ms * platform.ticks_per_ms + maximum_request_age * platform.ticks_per_ms)
                  other
                  payload_hash
                  (remove_expired now' store)).0
        settle ms = elim (later now now' store h settled) [
          | inr past ↦ inr past
          | inl held ↦
              elim (sweep-find platform now' store.heap store.tombstones store.response_lru key tied
                held) [
                  | inl kept ↦
                      inl (begin_locked-find _ other payload_hash (remove_expired now' store) kept)
                  | inr past ↦ inr past
                ]
        ]

    step-Good :
        (now : ℕ) (store : Store) (c : Call)
        → Ordered now (c ∷ [])
        → Good now store
        → Good (last_reading now (c ∷ [])) (step platform store c)
    unfolding step
    step-Good now store (begins now' other payload_hash) o g =
        begin-Good now now' other payload_hash store o.0 g
    step-Good now store (marks token) o g =
        Quiet-Good now store (after store (mark_executing token store))
          (marks-Quiet platform token store) g
    step-Good now store (completes token outcome revision response) o g =
        Quiet-Good now store (after store (complete platform token outcome revision response store))
          (complete-Quiet platform token outcome revision response store) g

    run-Good :
        (cs : List Call) (now : ℕ) (store : Store)
        → Ordered now cs
        → Good now store
        → Good (last_reading now cs) (run platform store cs)
    unfolding run
    run-Good [] now store o g = g
    run-Good (begins now' other payload_hash ∷ cs) now store o g =
        run-Good cs now' _ o.1 (step-Good now store (begins now' other payload_hash) (o.0, tt) g)
    run-Good (marks token ∷ cs) now store o g =
        run-Good cs now _ o (step-Good now store (marks token) tt g)
    run-Good (completes token outcome revision response ∷ cs) now store o g =
        run-Good cs now _ o (step-Good now store (completes token outcome revision response) tt g)

    -- `begin` accepts only a key that `begin_locked` finds no tombstone of, within the window.
    accepts :
        (now : ℕ) (payload_hash : Bytes) (store store' : Store) (result : BeginResult)
        → begin platform now key payload_hash store ≡ ok (store', result)
        → result.decision ≡ accepted
        → (ms : ℕ) × (get_uuid_v7_time key.request_id ≡ some ms)
          × (outside_window platform (ms * platform.ticks_per_ms) now ≡ false)
          × (begin_locked
                (ms * platform.ticks_per_ms + maximum_request_age * platform.ticks_per_ms)
                key
                payload_hash
                (remove_expired now store)
              ≡ (store', result))
    unfolding begin begin_at
    accepts now payload_hash store store' result h a =
        elim (Bool-cases (invalid_arguments platform key payload_hash store)) [
          | inl bad ↦ absurd (ground arith)
          | inr good ↦ elim (Option-cases (get_uuid_v7_time key.request_id)) [
            | inl undated ↦ absurd (ground arith)
            | inr (ms, time) ↦
                elim (Bool-cases (outside_window platform (ms * platform.ticks_per_ms) now)) [
                  | inl out ↦ absurd (ground arith)
                  | inr within ↦ (ms, time, within, ground arith)
                ]
          ]
        ]

    begin_locked-accepted :
        (expires_at : ℕ) (payload_hash : Bytes) (store store' : Store) (result : BeginResult)
        → begin_locked expires_at key payload_hash store ≡ (store', result)
        → result.decision ≡ accepted
        → (find key store.tombstones ≡ none) × (is_some (find key store'.tombstones) ≡ true)
    unfolding begin_locked find begin_existing
    begin_locked-accepted expires_at payload_hash store store' result h a =
        (ground arith, ground (arith, key_eq_refl key))

    -- Behind an accepted `begin` the key is settled; a settled key is never accepted.
    accepted-Good :
        (now : ℕ) (payload_hash : Bytes) (store store' : Store) (result : BeginResult)
        → Tied platform store.heap store.tombstones
        → begin platform now key payload_hash store ≡ ok (store', result)
        → result.decision ≡ accepted
        → Good now store'
    accepted-Good now payload_hash store store' result tied h a =
        let (ms, time, within, e) = accepts now payload_hash store store' result h a in
        let swept = remove_expired now store in
        let same = ap (λ (p : Store × BeginResult). p.0) e in
        (
          subst (λ (s : Store). Tied platform s.heap s.tombstones) same
              (begin_locked-Tied platform ms key payload_hash swept time (
                unfold remove_expired in
                sweep-Tied platform now store.heap store.tombstones store.response_lru tied)),
          inl (begin_locked-accepted _ payload_hash swept store' result e a).1,
        )

    Good-refuses :
        (now now' : ℕ) (payload_hash : Bytes) (store store' : Store) (result : BeginResult)
        → Good now store
        → now ≤ now'
        → begin platform now' key payload_hash store ≡ ok (store', result)
        → result.decision ≢ accepted
    unfolding remove_expired outside_window
    Good-refuses now now' payload_hash store store' result (tied, settled) o h a =
        let (ms, time, within, e) = accepts now' payload_hash store store' result h a in
        let (absent, _) =
          begin_locked-accepted _ payload_hash (remove_expired now' store) store' result e a in
        elim (later now now' store o settled) [
          | inr (t, (ms', time', x), past) ↦
              let same : ms ≡ ms' = ground (arith, time, time') in ground (arith, same)
          | inl held ↦
              elim (sweep-find platform now' store.heap store.tombstones store.response_lru key tied
                held) [
                  | inl kept ↦ ground arith
                  | inr (t, (ms', time', x), past) ↦
                      let same : ms ≡ ms' = ground (arith, time, time') in ground (arith, same)
                ]
        ]

  step-Tied :
      (store : Store) (c : Call)
      → Tied platform store.heap store.tombstones
      → Tied platform (step platform store c).heap (step platform store c).tombstones
  unfolding step remove_expired
  step-Tied store (begins now key payload_hash) tied =
      begin_cases platform (λ s. Tied platform s.heap s.tombstones) now key payload_hash store tied
        λ ms time.
          begin_locked-Tied platform ms key payload_hash (remove_expired now store) time
            (sweep-Tied platform now store.heap store.tombstones store.response_lru tied)
  step-Tied store (marks token) tied =
      let (keeps, same, _) = marks-Quiet platform token store in
      rw same (Tied-Keeps platform store.heap _ store.tombstones keeps tied)
  step-Tied store (completes token outcome revision response) tied =
      let (keeps, same, _) = complete-Quiet platform token outcome revision response store in
      rw same (Tied-Keeps platform store.heap _ store.tombstones keeps tied)

  run-Tied :
      (cs : List Call) (store : Store)
      → Tied platform store.heap store.tombstones
      → Tied platform (run platform store cs).heap (run platform store cs).tombstones
  unfolding run
  run-Tied [] store tied = tied
  run-Tied (c ∷ cs) store tied = run-Tied cs (step platform store c) (step-Tied store c tied)

  create-Tied :
      (server_epoch : Bytes) (limits : Limits) (store : Store)
      → create platform server_epoch limits ≡ ok store
      → Tied platform store.heap store.tombstones
  unfolding create
  create-Tied server_epoch limits store h = let e : store.tombstones ≡ [] = ground arith in rw e tt

-- In the history of a store from its creation on: when `begin` has accepted a key, a later `begin`
-- of that key never accepts it again, with any payload and whatever is called in between, provided
-- that the clock's readings do not fall from the first `begin` on.
pub accepted_once :
    (platform : Platform) (server_epoch : Bytes) (limits : Limits) (created : Store)
    (before between : List Call) (key : MutationKey) (hash hash' : Bytes) (now now' : ℕ)
    (s s' : Store) (first second : BeginResult)
    → create platform server_epoch limits ≡ ok created
    → begin platform now key hash (run platform created before) ≡ ok (s, first)
    → first.decision ≡ accepted
    → Ordered platform now between
    → last_reading platform now between ≤ now'
    → begin platform now' key hash' (run platform s between) ≡ ok (s', second)
    → second.decision ≢ accepted
accepted_once platform server_epoch limits created before between key hash hash' now now' s s' first
      second made begun first_accepted ordered later_reading again =
    Good-refuses platform key (last_reading platform now between) now' hash'
      (run platform s between) s' second
      (run-Good platform key between now s ordered (
        accepted-Good platform key now hash (run platform created before) s first
          (run-Tied platform before created (create-Tied platform server_epoch limits created made))
          begun first_accepted))
      later_reading again
