-- ===== src/AtMostOnce/Retention.antt =====
-- The response that `complete` of AviUtl2MCP.Bridge/src/at_most_once_store.cpp caches is there for the
-- requests that wait for the same mutation.
use aviutl2mcp.Common.{
  ℕ, zero, suc, ◌≤◌, ◌<◌, ◌≡◌, ◌≢◌, inl, inr, refl, ap, ◌∙◌, sym, subst, true, false, ◌||◌, some,
  List, [], ◌∷◌, Bytes, get_elem?, get_elem?-set, length, ◌==◌, ltb, All, Bool-cases, Option-cases,
  arith, ==_iff, ok,
}
use aviutl2mcp.Common.Maps.{Map, find}
use aviutl2mcp.Platform.{Platform}
use aviutl2mcp.AtMostOnce.{MutationKey, key_Eq, completed, MutationRecord, Entry, Store}
use aviutl2mcp.AtMostOnce.Operations.{
  is_completed, forget_response, evict, cache_response, create_record, pop_back,
}
use aviutl2mcp.AtMostOnce.Heap.{forget_response-tombstones}
use aviutl2mcp.AtMostOnce.Completion.{get_elem?-set_self, noted, done, with_done}
use aviutl2mcp.AtMostOnce.Methods.{entry_of, wait_for_completion}

-- The entry at `ref` is completed and has this response.
pub record HasResponse (ref : ℕ) (response : Bytes) (store : Store) : Type 0 where
  pub entry : Entry
  pub held : get_elem? store.heap ref ≡ some entry
  pub state_is : entry.state ≡ completed
  pub response_is : entry.response_json ≡ some response

-- No key in the list leads to the entry at `ref`.
abbrev pub LeadElsewhere : ℕ → Store → List MutationKey → Type 0
LeadElsewhere ref store lru = All (λ key. find key store.tombstones ≢ some ref) lru

pop_back-All :
    (P : MutationKey → Type 0) (lru : List MutationKey) (last : MutationKey)
    (front : List MutationKey)
    → pop_back lru ≡ some (last, front)
    → All P lru
    → P last × All P front
unfolding pop_back
pop_back-All P [] last front e h = absurd (ground arith)
pop_back-All P (k ∷ []) last front e h =
    let first : k ≡ last = ground arith in
    let rest : [] ≡ front = ground arith in (subst P first h.0, subst (All P) rest tt)
pop_back-All P (k ∷ k' ∷ lru) last front e h = elim (Option-cases (pop_back (k' ∷ lru))) [
  | inl missing ↦ absurd (ground arith)
  | inr ((l, f), e') ↦
      let same : l ≡ last = ground arith in
      let rest : k ∷ f ≡ front = ground arith in
      let (p, q) = pop_back-All P (k' ∷ lru) l f e' h.1 in
      (subst P same p, subst (All P) rest (h.0, q))
]

forget_response-lru :
    (key : MutationKey) (store : Store)
    → (forget_response key store).response_lru ≡ store.response_lru
unfolding forget_response
forget_response-lru key store = ground arith

forget_response-HasResponse :
    (ref : ℕ) (response : Bytes) (key : MutationKey) (store : Store)
    → find key store.tombstones ≢ some ref
    → HasResponse ref response store
    → HasResponse ref response (forget_response key store)
unfolding forget_response
forget_response-HasResponse ref response key store other h =
    elim (Option-cases (find key store.tombstones)) [
      | inl missing ↦ rw (missing, forget_response) h
      | inr (i, e) ↦ elim (Option-cases (get_elem? store.heap i)) [
        | inl missing ↦ rw (e, forget_response, missing) h
        | inr (entry, at) ↦ elim (Bool-cases (i == ref)) [
          | inl same ↦ absurd (other (e ∙ ap some ((==_iff i ref).0 same)))
          | inr apart ↦
              rw (e, forget_response, at)
                (record {
                  entry = h.entry;
                  held = get_elem?-set store.heap i ref _ h.entry h.held ∙ rw apart;
                  state_is = h.state_is;
                  response_is = h.response_is;
                })
        ]
      ]
    ]

-- Behind a key that stays in front, the entries that are evicted are other ones.
evict-HasResponse :
    (fuel ref : ℕ) (response : Bytes) (key : MutationKey) (old : List MutationKey) (store : Store)
    → store.response_lru ≡ key ∷ old
    → 1 ≤ store.limits.maximum_cached_responses
    → LeadElsewhere ref store old
    → HasResponse ref response store
    → HasResponse ref response (evict fuel store)
unfolding evict pop_back
evict-HasResponse zero ref response key old store l m o h = h
evict-HasResponse (suc fuel) ref response key [] store l m o h =
    let full : ltb store.limits.maximum_cached_responses (length store.response_lru) ≡ false =
      rw l (ground arith) in
    rw (full, evict) h
evict-HasResponse (suc fuel) ref response key (k ∷ old) store l m o h =
    elim (Bool-cases (ltb store.limits.maximum_cached_responses (length store.response_lru))) [
      | inr done ↦ rw (done, evict) h
      | inl more ↦ elim (Option-cases (pop_back (k ∷ old))) [
        | inl missing ↦ rw (more, evict, l, pop_back, missing) h
        | inr ((last, front), e) ↦
            let popped : Store = record store { response_lru = key ∷ front } in
            let (apart, fronts) =
              pop_back-All (λ j. find j store.tombstones ≢ some ref) (k ∷ old) last front e o in
            let here : HasResponse ref response popped = record {
              entry = h.entry;
              held = h.held;
              state_is = h.state_is;
              response_is = h.response_is;
            } in
            let next = forget_response last popped in
            let (t, b) = forget_response-tombstones last popped in
            let taken : pop_back store.response_lru ≡ some (last, key ∷ front) = rw l (rw e refl) in
            rw (more, evict, taken)
              (evict-HasResponse fuel ref response key front next (forget_response-lru last popped)
                (rw b m)
                (subst (λ (ts : Map MutationKey ℕ). All (λ j. find j ts ≢ some ref) front) (sym t)
                  fronts)
                (forget_response-HasResponse ref response last popped apart here))
      ]
    ]

module _ (platform : Platform) (ref : ℕ) (outcome revision response : Bytes) (store : Store)
    (entry : Entry) where
  pub complete-HasResponse :
      get_elem? store.heap ref ≡ some entry
      → 1 ≤ store.limits.maximum_cached_responses
      → length response ≤ store.limits.maximum_response_bytes
      → LeadElsewhere ref store store.response_lru
      → HasResponse ref response (
          cache_response ref
            (done platform ref outcome revision response store entry)
            response
            (with_done platform ref outcome revision response store entry))
  unfolding cache_response
  complete-HasResponse at some_room fits elsewhere =
      let written = done platform ref outcome revision response store entry in
      let before = with_done platform ref outcome revision response store entry in
      let on : (store.limits.maximum_cached_responses == 0
            || ltb store.limits.maximum_response_bytes (length response))
          ≡ false =
        ground arith in
      rw on (
        evict-HasResponse (suc (length store.response_lru)) ref response entry.key
          store.response_lru (noted ref written response before) refl some_room elsewhere
          (record {
            entry = record written { response_json = some response; is_cached = true };
            held =
                get_elem?-set_self before.heap ref _ written
                  (get_elem?-set_self store.heap ref written entry at);
            state_is = refl;
            response_is = refl;
          }))

-- A request that waits finds the response.
pub wait_for_completion-HasResponse :
    (ref : ℕ) (response : Bytes) (timeout : ℕ) (store : Store)
    → 0 < timeout
    → HasResponse ref response store
    → (found : MutationRecord) × (wait_for_completion (some ref) timeout store ≡ ok (some found))
      × (found.response_json ≡ some response)
unfolding wait_for_completion entry_of create_record is_completed
wait_for_completion-HasResponse ref response timeout store waits h =
    let timed : (timeout == 0) ≡ false = ground arith in
    (
      create_record h.entry,
      rw (wait_for_completion, entry_of, h.held, timed, h.state_is) refl,
      h.response_is,
    )
