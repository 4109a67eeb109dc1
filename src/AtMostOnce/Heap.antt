-- ===== src/AtMostOnce/Heap.antt =====
-- What every step of at_most_once_store.cpp keeps of an entry: its key and its deadline. So the
-- tombstones stay tied to their entries.
use aviutl2mcp.Common.{
  ℕ, zero, suc, ◌+◌, ◌*◌, ◌<◌, ◌≡◌, ◌⊎◌, inl, inr, refl, ◌∙◌, true, false, ◌||◌, some, is_some,
  List, [], ◌∷◌, ◌++◌, Bytes, get_elem?, set, get_elem?-set, get_elem?-append, length, ◌==◌,
  if◌then◌else◌, Bool-cases, Option-cases, arith, ==_iff, ltb,
}
use aviutl2mcp.Common.Maps.{Map, find}
use aviutl2mcp.Platform.{Platform}
use aviutl2mcp.AtMostOnce.{
  MutationKey, key_Eq, key_eq, eq_of-key_eq, Entry, Store, get_uuid_v7_time, maximum_request_age,
  erase_cached,
}
use aviutl2mcp.AtMostOnce.Operations.{
  sweep, stays, forget_response, evict, cache_response, pop_back,
}

-- Each entry is still there, with its key and deadline.
abbrev pub Keeps : List Entry → List Entry → Type 0
Keeps heap heap' =
    (ref : ℕ) (entry : Entry)
    → get_elem? heap ref ≡ some entry
    → (entry' : Entry) × (get_elem? heap' ref ≡ some entry')
      × (entry'.key ≡ entry.key)
      × (entry'.expires_at ≡ entry.expires_at)

pub Keeps-refl : (heap : List Entry) → Keeps heap heap
Keeps-refl heap ref entry h = (entry, h, refl, refl)

pub Keeps-trans : (a b c : List Entry) → Keeps a b → Keeps b c → Keeps a c
Keeps-trans a b c p q ref entry h =
    let (e1, h1, k1, x1) = p ref entry h in
    let (e2, h2, k2, x2) = q ref e1 h1 in (e2, h2, k2 ∙ k1, x2 ∙ x1)

pub Keeps-set :
    (heap : List Entry) (i : ℕ) (old new : Entry)
    → get_elem? heap i ≡ some old
    → new.key ≡ old.key
    → new.expires_at ≡ old.expires_at
    → Keeps heap (set heap i new)
Keeps-set heap i old new at k x ref entry h = elim (Bool-cases (i == ref)) [
  | inl same ↦
      let i≡ref : i ≡ ref = (==_iff i ref).0 same in
      (new, get_elem?-set heap i ref new entry h ∙ rw same, ground arith, ground arith)
  | inr other ↦ (entry, get_elem?-set heap i ref new entry h ∙ rw other, refl, refl)
]

pub Keeps-append : (heap more : List Entry) → Keeps heap (heap ++ more)
Keeps-append heap more ref entry h = (entry, get_elem?-append heap more ref entry h, refl, refl)

sweep_keep :
    (now : ℕ) (heap : List Entry) (key : MutationKey) (ref : ℕ) (rest : Map MutationKey ℕ)
    (lru : List MutationKey) (entry : Entry)
    → get_elem? heap ref ≡ some entry
    → stays now entry ≡ true
    → (sweep now heap ((key, ref) ∷ rest) lru).0 ≡ (key, ref) ∷ (sweep now heap rest lru).0
unfolding sweep
sweep_keep now heap key ref rest lru entry at keep = rw (at, sweep, keep)

sweep_drop :
    (now : ℕ) (heap : List Entry) (key : MutationKey) (ref : ℕ) (rest : Map MutationKey ℕ)
    (lru : List MutationKey) (entry : Entry)
    → get_elem? heap ref ≡ some entry
    → stays now entry ≡ false
    → sweep now heap ((key, ref) ∷ rest) lru
      ≡ sweep now heap rest (if entry.is_cached then erase_cached entry.key lru else lru)
unfolding sweep
sweep_drop now heap key ref rest lru entry at drop = rw (at, sweep, drop)

module _ (platform : Platform) where
  -- The end of a key's life: the time that its request id carries, and ten minutes.
  abbrev pub Deadline : MutationKey → ℕ → Type 0
  Deadline key t =
      (ms : ℕ) × (get_uuid_v7_time key.request_id ≡ some ms)
      × (t ≡ ms * platform.ticks_per_ms + maximum_request_age * platform.ticks_per_ms)

  -- Every tombstone has an entry of its key, with the key's deadline.
  abbrev pub Tied : List Entry → Map MutationKey ℕ → Type 0
  Tied heap [] = Unit
  Tied heap ((key, ref) ∷ rest) =
      ((entry : Entry) × (get_elem? heap ref ≡ some entry)
        × (entry.key ≡ key)
        × Deadline key entry.expires_at)
      × Tied heap rest

  pub Tied-Keeps :
      (heap heap' : List Entry) (ts : Map MutationKey ℕ)
      → Keeps heap heap'
      → Tied heap ts
      → Tied heap' ts
  Tied-Keeps heap heap' [] keeps t = tt
  Tied-Keeps heap heap' ((key, ref) ∷ rest) keeps ((entry, at, k, (ms, time, x)), t) =
      let (entry', at', k', x') = keeps ref entry at in
      ((entry', at', k' ∙ k, (ms, time, x' ∙ x)), Tied-Keeps heap heap' rest keeps t)

  pub sweep-Tied :
      (now : ℕ) (heap : List Entry) (ts : Map MutationKey ℕ) (lru : List MutationKey)
      → Tied heap ts
      → Tied heap (sweep now heap ts lru).0
  sweep-Tied now heap [] lru t = unfold sweep in tt
  sweep-Tied now heap ((key, ref) ∷ rest) lru ((entry, at, k, d), t) =
      elim (Bool-cases (stays now entry)) [
        | inl keep ↦
            rw (sweep_keep now heap key ref rest lru entry at keep)
              ((entry, at, k, d), sweep-Tied now heap rest lru t)
        | inr drop ↦
            rw (sweep_drop now heap key ref rest lru entry at drop) (sweep-Tied now heap rest _ t)
      ]

  -- A key that a sweep drops is past its deadline.
  pub sweep-find :
      (now : ℕ) (heap : List Entry) (ts : Map MutationKey ℕ) (lru : List MutationKey)
      (key : MutationKey)
      → Tied heap ts
      → is_some (find key ts) ≡ true
      → (is_some (find key (sweep now heap ts lru).0) ≡ true)
        ⊎ ((t : ℕ) × Deadline key t × (t < now))
  unfolding find stays
  sweep-find now heap [] lru key t h = absurd (ground arith)
  sweep-find now heap ((k, ref) ∷ rest) lru key ((entry, at, same, (ms, time, x)), t) h =
      elim (Bool-cases (key_eq k key)) [
        | inl hit ↦
            let e : k ≡ key = eq_of-key_eq k key hit in
            elim (Bool-cases (stays now entry)) [
              | inl keep ↦ inl (rw (sweep_keep now heap k ref rest lru entry at keep, hit))
              | inr drop ↦ inr (entry.expires_at, (ms, ground (arith, e), x), ground arith)
            ]
        | inr miss ↦
            let found : is_some (find key rest) ≡ true = ground arith in
            elim (Bool-cases (stays now entry)) [
              | inl keep ↦
                  rw (sweep_keep now heap k ref rest lru entry at keep, miss)
                    (sweep-find now heap rest lru key t found)
              | inr drop ↦
                  rw (sweep_drop now heap k ref rest lru entry at drop)
                    (sweep-find now heap rest _ key t found)
            ]
      ]

forget_response-Keeps :
    (key : MutationKey) (store : Store) → Keeps store.heap (forget_response key store).heap
unfolding forget_response
forget_response-Keeps key store = elim (Option-cases (find key store.tombstones)) [
  | inl missing ↦ rw (missing, forget_response) (Keeps-refl store.heap)
  | inr (ref, e) ↦ elim (Option-cases (get_elem? store.heap ref)) [
    | inl missing ↦ rw (e, forget_response, missing) (Keeps-refl store.heap)
    | inr (entry, at) ↦ rw (e, forget_response, at) (Keeps-set store.heap ref entry _ at refl refl)
  ]
]

pub forget_response-tombstones :
    (key : MutationKey) (store : Store)
    → ((forget_response key store).tombstones ≡ store.tombstones)
      × ((forget_response key store).limits ≡ store.limits)
unfolding forget_response
forget_response-tombstones key store = (ground arith, ground arith)

-- Evicting responses touches no tombstone, key or deadline.
evict-Keeps :
    (fuel : ℕ) (store : Store)
    → Keeps store.heap (evict fuel store).heap
      × ((evict fuel store).tombstones ≡ store.tombstones)
      × ((evict fuel store).limits ≡ store.limits)
unfolding evict
evict-Keeps zero store = (Keeps-refl store.heap, refl, refl)
evict-Keeps (suc fuel) store =
    elim (Bool-cases (ltb store.limits.maximum_cached_responses (length store.response_lru))) [
      | inr done ↦ rw (done, evict) (Keeps-refl store.heap, refl, refl)
      | inl more ↦ elim (Option-cases (pop_back store.response_lru)) [
        | inl missing ↦ rw (more, evict, missing) (Keeps-refl store.heap, refl, refl)
        | inr ((key, lru), e) ↦
            let popped : Store = record store { response_lru = lru } in
            let next = forget_response key popped in
            let (k, t, l) = evict-Keeps fuel next in
            rw (more, evict, e)
              (
                Keeps-trans store.heap next.heap (evict fuel next).heap
                    (forget_response-Keeps key popped) k,
                t ∙ (forget_response-tombstones key popped).0,
                l ∙ (forget_response-tombstones key popped).1,
              )
      ]
    ]

pub cache_response-Keeps :
    (ref : ℕ) (entry : Entry) (response : Bytes) (store : Store)
    → get_elem? store.heap ref ≡ some entry
    → Keeps store.heap (cache_response ref entry response store).heap
      × ((cache_response ref entry response store).tombstones ≡ store.tombstones)
      × ((cache_response ref entry response store).limits ≡ store.limits)
unfolding cache_response
cache_response-Keeps ref entry response store at =
    elim (Bool-cases (
      store.limits.maximum_cached_responses == 0
      || ltb store.limits.maximum_response_bytes (length response))) [
        | inl off ↦ rw off (Keeps-refl store.heap, refl, refl)
        | inr on ↦
            let noted : Store = record store {
              heap =
                  set store.heap ref
                    (record entry { response_json = some response; is_cached = true });
              response_lru = entry.key ∷ store.response_lru;
            } in
            let (k, t, l) = evict-Keeps (suc (length store.response_lru)) noted in
            rw on (
              Keeps-trans store.heap noted.heap _ (Keeps-set store.heap ref entry _ at refl refl) k,
              t,
              l,
            )
      ]
