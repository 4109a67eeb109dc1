-- ===== src/Dispatcher/CommitPoint.antt =====
-- The commit point of an execution in AviUtl2MCP.Bridge/src/request_dispatcher.cpp: what its context
-- says and what the registry says agree, so the dispatcher's own answers are honest.
use aviutl2mcp.Common.{
  ◌≡◌, ◌≢◌, inl, inr, refl, ◌∙◌, true, false, Option, none, some, List, [], ◌∷◌, Bytes, bytes_eq,
  bytes_eq_refl, text, Bool-cases, Option-cases, arith,
}
use aviutl2mcp.Cancellation
use aviutl2mcp.Cancellation.{
  RequestState, queued, executing, committed, cancelled, Registry, create_key, state_of,
  register_request, set_state, try_begin, try_reach_commit_point, cancel, cancel_state, cancel_all,
}
use aviutl2mcp.Cancellation.Lifecycle.{
  state_of-set_state, state_of-key, state_of-cancel_all, state_of-cons, cancel_one,
}
use aviutl2mcp.Dispatcher.{OperationRequest, Dispatcher}
use aviutl2mcp.Dispatcher.Conclusion.{told_unchanged}
use aviutl2mcp.Dispatcher.Callbacks.{open_context}
use aviutl2mcp.Dispatcher.Execution.{
  OperationResult, Script, returns, throws, asks_cancelled, reaches_commit_point, reads_revisions,
  updates_revisions, Interference, registers, cancels, stops, changes_revisions, Context, interfere,
  interfere_all, revise, revise_all, interrupt, is_cancelled, reach_commit_point, current,
  following, execute, internal_error, operation_cancelled, catch_result, require_outcome, settle,
}

-- What other threads can do to a request that is under way: nothing, or cancel it.
data Touch (s t : Option RequestState) : Type 0 where
  same : t ≡ s → Touch s t
  withdrawn : s ≢ some committed → t ≡ some RequestState.cancelled → Touch s t

interfere-Touch :
    (call : Interference) (j : Bytes) (r : Registry)
    → state_of j r ≢ none
    → Touch (state_of j r) (state_of j (interfere call r))
unfolding interfere register_request cancel cancel_one cancel_state
interfere-Touch (registers i) j r under_way =
    elim (Bool-cases (bytes_eq (create_key i) (create_key j))) [
      | inl one ↦
          same (ground (arith, under_way, state_of-cons i j queued r, state_of-key i j r one))
      | inr other ↦ same (ground (arith, state_of-cons i j queued r))
    ]
interfere-Touch (cancels i) j r under_way =
    elim (Bool-cases (bytes_eq (create_key i) (create_key j))) [
      | inl one ↦ grind (
        arith,
        same,
        withdrawn,
        under_way,
        state_of-set_state i j RequestState.cancelled r,
        state_of-key i j r one,
      )
      | inr other ↦ same (ground (arith, state_of-set_state i j RequestState.cancelled r))
    ]
interfere-Touch stops j r under_way = rw (state_of-cancel_all j r) (one (state_of j r) under_way)
  where
    one : (s : Option RequestState) → s ≢ none → Touch s (cancel_one s)
    one none h = absurd (h refl)
    one (some queued) h = withdrawn (λ e. cc) refl
    one (some executing) h = withdrawn (λ e. cc) refl
    one (some committed) h = same refl
    one (some RequestState.cancelled) h = same refl
interfere-Touch (changes_revisions change) j r under_way = same refl

-- The three phases of an execution: before its commit point, cancelled before it, and behind it. In
-- each the flag of the context and the registry agree.
pub data Phase (context : Context) : Type 0 where
  is_open :
      context.has_reached_commit_point ≡ false
      → state_of context.request_id context.cancellations ≡ some executing
      → Phase context
  is_withdrawn :
      context.has_reached_commit_point ≡ false
      → state_of context.request_id context.cancellations ≡ some RequestState.cancelled
      → Phase context
  is_committed :
      context.has_reached_commit_point ≡ true
      → state_of context.request_id context.cancellations ≡ some committed
      → Phase context

interfere_all-Phase :
    (calls : List Interference) (context : Context)
    → Phase context
    → Phase (interrupt calls context)
unfolding interrupt interfere_all revise_all
interfere_all-Phase [] context p = p
interfere_all-Phase (call ∷ calls) context p =
    interfere_all-Phase calls
      (record context {
        cancellations = interfere call context.cancellations;
        revisions = revise call context.revisions;
      })
      (step p)
  where
    step :
        Phase context
        → Phase (record context {
          cancellations = interfere call context.cancellations;
          revisions = revise call context.revisions;
        })
    step (is_open f e) =
        elim (interfere-Touch call context.request_id context.cancellations (λ n. cc)) [
          | same t ↦ is_open f (t ∙ e)
          | withdrawn n t ↦ is_withdrawn f t
        ]
    step (is_withdrawn f e) =
        elim (interfere-Touch call context.request_id context.cancellations (λ n. cc)) [
          | same t ↦ is_withdrawn f (t ∙ e)
          | withdrawn n t ↦ is_withdrawn f t
        ]
    step (is_committed f e) =
        elim (interfere-Touch call context.request_id context.cancellations (λ n. cc)) [
          | same t ↦ is_committed f (t ∙ e)
          | withdrawn n t ↦ absurd (n e)
        ]

reach_commit_point-Phase :
    (context : Context) → Phase context → Phase (reach_commit_point context).0
unfolding reach_commit_point try_reach_commit_point
reach_commit_point-Phase context (is_open f e) =
    rw (e, reach_commit_point, try_reach_commit_point)
      (is_committed refl (
        state_of-set_state context.request_id context.request_id committed context.cancellations
        ∙ rw (e, bytes_eq_refl (create_key context.request_id)) refl))
reach_commit_point-Phase context (is_withdrawn f e) =
    rw (e, reach_commit_point, try_reach_commit_point) (is_withdrawn refl e)
reach_commit_point-Phase context (is_committed f e) =
    rw (e, reach_commit_point, try_reach_commit_point) (is_committed refl e)

execute-Phase :
    (handler : Script) (others : List (List Interference)) (context : Context)
    → Phase context
    → Phase (execute handler others context).0
unfolding execute
execute-Phase (returns result) others context p = interfere_all-Phase (current others) context p
execute-Phase throws others context p = interfere_all-Phase (current others) context p
execute-Phase (asks_cancelled next) others context p =
    let reached = interrupt (current others) context in
    execute-Phase (next (is_cancelled reached)) (following others) reached
      (interfere_all-Phase (current others) context p)
execute-Phase (reaches_commit_point next) others context p =
    let reached = reach_commit_point (interrupt (current others) context) in
    execute-Phase (next reached.1) (following others) reached.0
      (reach_commit_point-Phase _ (interfere_all-Phase (current others) context p))
execute-Phase (reads_revisions next) others context p =
    let reached = interrupt (current others) context in
    execute-Phase (next reached.revisions) (following others) reached
      (interfere_all-Phase (current others) context p)
execute-Phase (updates_revisions update next) others context p =
    let reached = interrupt (current others) context in
    execute-Phase next (following others) (record reached { revisions = update reached.revisions })
      (elim (interfere_all-Phase (current others) context p) [
        | is_open f e ↦ is_open f e
        | is_withdrawn f e ↦ is_withdrawn f e
        | is_committed f e ↦ is_committed f e
      ])

cancelled-unreached :
    (context : Context)
    → Phase context
    → is_cancelled context ≡ true
    → context.has_reached_commit_point ≡ false
unfolding is_cancelled Cancellation.is_cancelled
cancelled-unreached context (is_open f e) h = f
cancelled-unreached context (is_withdrawn f e) h = f
cancelled-unreached context (is_committed f e) h = absurd (ground arith)

settle-cancelled :
    (context : Context) (returned : Option OperationResult)
    → context.has_reached_commit_point ≡ false
    → is_cancelled context ≡ true
    → ((settle context returned).is_ok ≡ false)
      × ((settle context returned).outcome ≡ text "unchanged")
      × ((settle context returned).undo_recommended ≡ false)
unfolding settle catch_result require_outcome internal_error operation_cancelled
settle-cancelled context none unreached reads =
    (ground (arith, told_unchanged), ground (arith, told_unchanged), ground (arith, told_unchanged))
settle-cancelled context (some result) unreached reads =
    (ground (arith, told_unchanged), ground (arith, told_unchanged), ground (arith, told_unchanged))

module _ (request : OperationRequest) (dispatcher : Dispatcher) where
  -- The context that the worker's callback opens when it has begun the request.
  abbrev begun_context : Context
  begun_context = open_context request (record dispatcher {
    cancellations = (try_begin request.request_id dispatcher.cancellations).0;
  })

  begin-Phase :
      (try_begin request.request_id dispatcher.cancellations).1 ≡ true → Phase begun_context
  unfolding try_begin open_context
  begin-Phase begins = elim (Option-cases (state_of request.request_id dispatcher.cancellations)) [
    | inl missing ↦ absurd (ground arith)
    | inr (queued, e) ↦ is_open refl (
        rw (try_begin, e)
          (state_of-set_state request.request_id request.request_id executing
              dispatcher.cancellations
            ∙ rw (e, bytes_eq_refl (create_key request.request_id)) refl))
    | inr (executing, e) ↦ absurd (ground arith)
    | inr (committed, e) ↦ absurd (ground arith)
    | inr (RequestState.cancelled, e) ↦ absurd (ground arith)
  ]

  -- Once a request has begun, whatever its handler does and however other threads register, cancel,
  -- stop and load projects meanwhile: at the end the context says that the commit point was reached exactly where
  -- the registry has the request as committed, and the request is executing or cancelled where not.
  pub commit_point_agrees :
      (handler : Script) (others : List (List Interference))
      → (try_begin request.request_id dispatcher.cancellations).1 ≡ true
      → Phase (execute handler others begun_context).0
  commit_point_agrees handler others begins =
      execute-Phase handler others begun_context (begin-Phase begins)

  -- Suppose the request has begun and reads as cancelled when its handler has returned or thrown.
  -- Then the commit point was never reached, and what is reported is a failure that left the project
  -- unchanged, with no undo to recommend.
  pub cancelled_is_unchanged :
      (handler : Script) (others : List (List Interference))
      → (try_begin request.request_id dispatcher.cancellations).1 ≡ true
      → is_cancelled (execute handler others begun_context).0 ≡ true
      → let (context, returned) = execute handler others begun_context in
        (context.has_reached_commit_point ≡ false)
        × ((settle context returned).is_ok ≡ false)
        × ((settle context returned).outcome ≡ text "unchanged")
        × ((settle context returned).undo_recommended ≡ false)
  cancelled_is_unchanged handler others begins reads =
      let (context, returned) = execute handler others begun_context in
      let unreached =
        cancelled-unreached context (commit_point_agrees handler others begins) reads in
      let (failed, told, undone) = settle-cancelled context returned unreached reads in
      (unreached, failed, told, undone)
