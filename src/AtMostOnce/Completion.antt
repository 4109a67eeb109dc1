-- ===== src/AtMostOnce/Completion.antt =====
-- What `complete` of AviUtl2MCP.Bridge/src/at_most_once_store.cpp leaves in the store for those who
-- wait for the mutation.
use aviutl2mcp.Common.{
  ℕ, zero, suc, ◌<◌, ◌^◌, ◌-◌, ◌++◌, ◌≡◌, inl, inr, refl, ◌∙◌, true, false, ◌||◌, none, some, List,
  [], ◌∷◌, Bytes, get_elem?, set, get_elem?-set, length, ◌==◌, ltb, is_empty, Bool-cases,
  Option-cases, arith, ==_iff, ==_refl, ok,
}
use aviutl2mcp.Common.Maps.{find}
use aviutl2mcp.Ipc.Frame.{append_chunks, calculate_hash, calculate_sha256}
use aviutl2mcp.Platform.{Platform}
use aviutl2mcp.AtMostOnce.{MutationKey, key_Eq, completed, Entry, Store}
use aviutl2mcp.AtMostOnce.Operations.{
  is_completed, forget_response, evict, cache_response, pop_back,
}
use aviutl2mcp.AtMostOnce.Methods.{entry_of, finished, complete}

-- The entry at `ref` is completed, with this outcome and this revision.
pub record IsFinished (ref : ℕ) (outcome revision : Bytes) (store : Store) : Type 0 where
  pub entry : Entry
  pub held : get_elem? store.heap ref ≡ some entry
  pub state_is : entry.state ≡ completed
  pub outcome_is : entry.outcome ≡ outcome
  pub revision_is : entry.revision ≡ revision

pub get_elem?-set_self :
    {A : Type 0} (xs : List A) (i : ℕ) (v w : A)
    → get_elem? xs i ≡ some w
    → get_elem? (set xs i v) i ≡ some v
get_elem?-set_self xs i v w at = get_elem?-set xs i i v w at ∙ rw (==_refl i)

-- The store where `cache_response` has put the response in, before it evicts.
abbrev pub noted : ℕ → Entry → Bytes → Store → Store
noted ref entry response store = record store {
  heap = set store.heap ref (record entry { response_json = some response; is_cached = true });
  response_lru = entry.key ∷ store.response_lru;
}

module _ (ref : ℕ) (outcome revision : Bytes) where
  forget_response-IsFinished :
      (key : MutationKey) (store : Store)
      → IsFinished ref outcome revision store
      → IsFinished ref outcome revision (forget_response key store)
  unfolding forget_response
  forget_response-IsFinished key store f = elim (Option-cases (find key store.tombstones)) [
    | inl missing ↦ rw (missing, forget_response) f
    | inr (i, e) ↦ elim (Option-cases (get_elem? store.heap i)) [
      | inl missing ↦ rw (e, forget_response, missing) f
      | inr (entry, at) ↦ elim (Bool-cases (i == ref)) [
        | inr other ↦
            rw (e, forget_response, at)
              (record {
                entry = f.entry;
                held = get_elem?-set store.heap i ref _ f.entry f.held ∙ rw other;
                state_is = f.state_is;
                outcome_is = f.outcome_is;
                revision_is = f.revision_is;
              })
        | inl same ↦
            let here : i ≡ ref = (==_iff i ref).0 same in
            rw (e, forget_response, at)
              (record {
                entry = record entry { response_json = none; is_cached = false };
                held = get_elem?-set store.heap i ref _ f.entry f.held ∙ rw same;
                state_is = ground (arith, f.held, f.state_is);
                outcome_is = ground (arith, f.held, f.outcome_is);
                revision_is = ground (arith, f.held, f.revision_is);
              })
      ]
    ]
  ]

  evict-IsFinished :
      (fuel : ℕ) (store : Store)
      → IsFinished ref outcome revision store
      → IsFinished ref outcome revision (evict fuel store)
  unfolding evict
  evict-IsFinished zero store f = f
  evict-IsFinished (suc fuel) store f =
      elim (Bool-cases (ltb store.limits.maximum_cached_responses (length store.response_lru))) [
        | inr done ↦ rw (done, evict) f
        | inl more ↦ elim (Option-cases (pop_back store.response_lru)) [
          | inl missing ↦ rw (more, evict, missing) f
          | inr ((key, lru), e) ↦
              let popped : Store = record store { response_lru = lru } in
              let here : IsFinished ref outcome revision popped = record {
                entry = f.entry;
                held = f.held;
                state_is = f.state_is;
                outcome_is = f.outcome_is;
                revision_is = f.revision_is;
              } in
              rw (more, evict, e)
                (evict-IsFinished fuel (forget_response key popped)
                  (forget_response-IsFinished key popped here))
        ]
      ]

  cache_response-IsFinished :
      (entry : Entry) (response : Bytes) (store : Store)
      → get_elem? store.heap ref ≡ some entry
      → entry.state ≡ completed
      → entry.outcome ≡ outcome
      → entry.revision ≡ revision
      → IsFinished ref outcome revision (cache_response ref entry response store)
  unfolding cache_response
  cache_response-IsFinished entry response store at s o r =
      elim (Bool-cases (
        store.limits.maximum_cached_responses == 0
        || ltb store.limits.maximum_response_bytes (length response))) [
          | inl off ↦
              rw off
                (record { entry = entry; held = at; state_is = s; outcome_is = o; revision_is = r })
          | inr on ↦ rw on (
              evict-IsFinished (suc (length store.response_lru)) (noted ref entry response store)
                (record {
                  entry = record entry { response_json = some response; is_cached = true };
                  held = get_elem?-set_self store.heap ref _ entry at;
                  state_is = s;
                  outcome_is = o;
                  revision_is = r;
                }))
        ]

module _ (platform : Platform) (ref : ℕ) (outcome revision response : Bytes) (store : Store)
    (entry : Entry) where
  -- What `complete` writes into the entry, and the store that it hands to `cache_response`.
  abbrev pub done : Entry
  done = finished entry outcome revision (platform.sha256 (response ++ []))

  abbrev pub with_done : Store
  with_done = record store { heap = set store.heap ref done }

  pub complete_returns :
      get_elem? store.heap ref ≡ some entry
      → is_completed entry.state ≡ false
      → is_empty outcome ≡ false
      → is_empty response ≡ false
      → length response < 2 ^ 32
      → complete platform (some ref) outcome revision response store
        ≡ ok (cache_response ref done response with_done)
  unfolding complete entry_of calculate_sha256 calculate_hash append_chunks
  complete_returns at open_state told answered short =
      let fits : ltb (2 ^ 32 - 1) (length response) ≡ false = ground arith in
      rw (complete, entry_of, at, told, answered, calculate_sha256, fits, open_state) refl

  -- An operation that is open completes, and the store knows its outcome from then on.
  pub complete-IsFinished :
      get_elem? store.heap ref ≡ some entry
      → IsFinished ref outcome revision (cache_response ref done response with_done)
  complete-IsFinished at =
      cache_response-IsFinished ref outcome revision done response with_done
        (get_elem?-set_self store.heap ref done entry at) refl refl refl
