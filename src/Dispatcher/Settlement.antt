-- ===== src/Dispatcher/Settlement.antt =====
-- A queued operation of AviUtl2MCP.Bridge/src/request_dispatcher.cpp is settled by its callback: the
-- client, the at-most-once store and the registry learn of its end together.
use aviutl2mcp.Common.{
  ℕ, ◌≤◌, ◌<◌, ◌≡◌, refl, ap, subst, sym, ◌∙◌, inl, inr, true, false, none, some, Option, List, [],
  if◌then◌else◌, Bytes, text, length, get_elem?, set, Bool-cases, arith, Result, ok,
}
use aviutl2mcp.Common.Maps.{bytes_Eq}
use aviutl2mcp.Platform.{Platform}
use aviutl2mcp.Cancellation.{try_begin}
use aviutl2mcp.AtMostOnce.{queued, executing, Entry}
use aviutl2mcp.AtMostOnce.Operations.{is_completed}
use aviutl2mcp.AtMostOnce.Completion.{get_elem?-set_self}
use aviutl2mcp.AtMostOnce.Retention.{LeadElsewhere, HasResponse, wait_for_completion-HasResponse}
use aviutl2mcp.Revisions.{Tracker, content_revision}
use aviutl2mcp.Dispatcher.{
  OperationRequest, ErrorReply, error_reply, stored_reply, Dispatcher, create_error,
}
use aviutl2mcp.Dispatcher.Execution.{
  OperationResult, ResponseReply, Answer, rejected, executed, Script, Interference, Context,
  revise_all, interrupt, execute, create_response, fallback,
}
use aviutl2mcp.Dispatcher.Callbacks.{
  cancelled_reply, open_context, close_context, run_handler, perform_operation, abandon_operation,
  await_attached, attached_answer,
}
use aviutl2mcp.Dispatcher.Conclusion.{
  IsPrinter, IsSized, IsSteady, IsResult, IsText, IsSettled, told_unchanged, told_not_started,
  conclude_operation_settles, respond_prints, mark_mutation_queued,
}
use aviutl2mcp.Dispatcher.Outcomes.{IsMeant, result-IsMeant}

module _ (platform : Platform) (dump : ErrorReply → Bytes) (print : ResponseReply → Result Bytes)
    (request : OperationRequest) where
  -- The run of the handler in the context that the callback opens.
  abbrev pub run_of :
      Script → List (List Interference) → Dispatcher → Context × Option OperationResult
  run_of handler others dispatcher = execute handler others (
      open_context request (record dispatcher {
        cancellations = (try_begin request.request_id dispatcher.cancellations).0;
      }))

  -- What a handler that has been run is answered and stored as: one result, with its outcome, and with
  -- its revision or else the tracker's. It is the handler's own, or a failure that says what is known of
  -- the project.
  pub record IsConcluded (run : Context × Option OperationResult) (between : List Interference)
      (answer : Answer) (outcome revision : Bytes) : Type 0 where
    pub result : OperationResult
    pub result_is : IsResult platform dump print request run result
    pub meant : IsMeant platform dump print request run result
    pub answer_is : answer ≡ executed (create_response request result run.0.revisions)
    pub outcome_is : outcome ≡ result.outcome
    pub revision_is :
        revision ≡ fallback result.revision (content_revision (revise_all between run.0.revisions))

  -- The end of the callback: the handler is run where the request has begun, and is not where it has been
  -- cancelled.
  pub IsPerformed :
      Script
      → List (List Interference)
      → List Interference
      → Dispatcher
      → Answer
      → (outcome revision : Bytes) → Type 0
  IsPerformed handler others between dispatcher answer outcome revision =
      if (try_begin request.request_id dispatcher.cancellations).1
      then IsConcluded (run_of handler others dispatcher) between answer outcome revision
      else (answer ≡ rejected (error_reply (cancelled_reply request dispatcher)))
        × (outcome ≡ text "unchanged")

  agree :
      (own : Bytes) (between : List Interference) (revisions : Tracker)
      → IsSteady between
      → fallback own (content_revision revisions)
        ≡ fallback own (content_revision (revise_all between revisions))
  agree own between revisions steady =
      ap (λ (t : Tracker). fallback own (content_revision t)) (sym (steady revisions))

  run_handler_settles :
      (ref : ℕ) (entry : Entry) (handler : Script) (others : List (List Interference))
      (between : List Interference) (dispatcher : Dispatcher) (refused : ErrorReply)
      → let run = execute handler others (open_context request dispatcher) in
        IsPrinter request dump print refused run
        → get_elem? dispatcher.mutations.heap ref ≡ some entry
        → entry.state ≡ queued
        → (s : IsSettled dump print request ref between dispatcher
            (run_handler platform dump print request (some ref) handler others between dispatcher))
          × IsConcluded run between s.answer s.outcome s.revision
  unfolding run_handler close_context is_completed open_context interrupt
  run_handler_settles ref entry handler others between dispatcher refused texts at waits =
      let running = record entry { state = executing } in
      let marked : Dispatcher = record dispatcher {
        mutations = record dispatcher.mutations {
          heap = set dispatcher.mutations.heap ref running;
        };
      } in
      let run = execute handler others (open_context request marked) in
      let (result, json, responds, is_result, told, sized, prints, reports) =
        respond_prints platform dump print request refused run texts in
      let later = interrupt between run.0 in
      let revision = fallback result.revision (content_revision later.revisions) in
      let (behind, concludes, finished, retained, freed, kept) =
        conclude_operation_settles platform dump print request ref running result.outcome revision
          json (close_context later marked)
          (get_elem?-set_self dispatcher.mutations.heap ref running entry at) refl told sized in
      (
        record {
          behind = behind;
          answer = executed (create_response request result run.0.revisions);
          outcome = result.outcome;
          revision = revision;
          returned =
              rw
                (
                  run_handler,
                  mark_mutation_queued platform dump print request ref entry dispatcher at waits,
                  responds,
                  concludes,
                )
                refl;
          told = told;
          reported = reports;
          agreed = λ steady.
              unfold create_response in agree result.revision between run.0.revisions steady;
          json = json;
          sent = prints;
          finished = finished;
          retained = retained;
          freed = freed;
          kept = kept;
        },
        record {
          result = result;
          result_is = is_result;
          meant = result-IsMeant platform dump print request run result is_result;
          answer_is = refl;
          outcome_is = refl;
          revision_is = refl;
        },
      )

  -- Suppose the mutation of a request is queued in the store, and the JSON library prints the rejection
  -- and the stand-in of this operation. Then the callback of the operation returns for every handler,
  -- also one that throws, returns a result without an outcome or one that cannot be printed, and whatever
  -- other threads do to the registry and the tracker between the handler's calls, and between the
  -- response and the completion. If the request has begun, it is answered with the result that the
  -- handler's return settles to, or with the stand-in if that one's response cannot be printed: this is the
  -- very result that the handler has returned, if it has an outcome, was not cancelled before its commit
  -- point and can be printed; it is else a failure, with the outcome "unknown" behind the commit point and
  -- "unchanged" before it. If the request has not begun, it is answered with the rejection. The mutation is left completed in the store with the outcome of that result, which
  -- is the one that the answer names if it names one, and with its revision, which is the one that the
  -- answer names unless another thread has changed the tracker behind the response. The answer's text is
  -- kept with it where the store caches texts of that length and no cached key leads to the mutation; the
  -- request id is free, and the gate as it was.
  pub perform_operation_settles :
      (ref : ℕ) (entry : Entry) (handler : Script) (others : List (List Interference))
      (between : List Interference) (dispatcher : Dispatcher)
      → IsPrinter request dump print
          (cancelled_reply request dispatcher)
          (run_of handler others dispatcher)
      → get_elem? dispatcher.mutations.heap ref ≡ some entry
      → entry.state ≡ queued
      → (s : IsSettled dump print request ref between dispatcher (
          perform_operation platform dump print request
            (some ref)
            handler
            others
            between
            dispatcher))
        × IsPerformed handler others between dispatcher s.answer s.outcome s.revision
  unfolding perform_operation is_completed IsPerformed close_context open_context interrupt
  perform_operation_settles ref entry handler others between dispatcher texts at waits =
      let registry = (try_begin request.request_id dispatcher.cancellations).0 in
      let begun : Dispatcher = record dispatcher { cancellations = registry } in
      let later : Dispatcher =
        close_context (interrupt between (open_context request begun)) begun in
      let refused = cancelled_reply request dispatcher in
      let open_state : is_completed entry.state ≡ false = rw waits refl in
      elim (Bool-cases (try_begin request.request_id dispatcher.cancellations).1) [
        | inl begins ↦
            let (s, concluded) =
              run_handler_settles ref entry handler others between begun refused texts at waits in
            (
              record {
                behind = s.behind;
                answer = s.answer;
                outcome = s.outcome;
                revision = s.revision;
                returned = rw (perform_operation, begins) s.returned;
                told = s.told;
                reported = s.reported;
                agreed = s.agreed;
                json = s.json;
                sent = s.sent;
                finished = s.finished;
                retained = s.retained;
                freed = s.freed;
                kept = s.kept;
              },
              rw begins concluded,
            )
        | inr cancelled ↦
            let (behind, concludes, finished, retained, freed, kept) =
              conclude_operation_settles platform dump print request ref entry (text "unchanged")
                (content_revision later.revisions) (dump refused) later at open_state told_unchanged
                texts.dumped in
            (
              record {
                behind = behind;
                answer = rejected (error_reply refused);
                outcome = text "unchanged";
                revision = content_revision later.revisions;
                returned = rw (perform_operation, cancelled, concludes) refl;
                told = told_unchanged;
                reported = unfold cancelled_reply in unfold create_error in refl;
                agreed = λ steady.
                    unfold cancelled_reply in
                    unfold create_error in ap content_revision (sym (steady dispatcher.revisions));
                json = dump refused;
                sent = refl;
                finished = finished;
                retained = retained;
                freed = freed;
                kept = kept;
              },
              rw cancelled (refl, refl),
            )
      ]

  -- The rejection of an operation that is stopped.
  abbrev stopping_reply : Dispatcher → ErrorReply
  stopping_reply dispatcher =
      create_error request (text "bridge_stopping")
        (text "Bridge stopped before operation execution") (text "not_started") true none
        dispatcher.revisions

  -- Suppose the mutation of a request is queued in the store. Then the callback that `stop` calls in
  -- place of the operation settles it too: the mutation is completed as not started, as the answer
  -- says, and the request id is free.
  pub abandon_operation_settles :
      (ref : ℕ) (entry : Entry) (dispatcher : Dispatcher)
      → IsSized (dump (stopping_reply dispatcher))
      → get_elem? dispatcher.mutations.heap ref ≡ some entry
      → entry.state ≡ queued
      → IsSettled dump print request ref [] dispatcher
          (abandon_operation platform dump print request (some ref) dispatcher)
  unfolding abandon_operation is_completed create_error
  abandon_operation_settles ref entry dispatcher sized at waits =
      let refused = stopping_reply dispatcher in
      let (behind, concludes, finished, retained, freed, kept) =
        conclude_operation_settles platform dump print request ref entry (text "not_started")
          (content_revision dispatcher.revisions) (dump refused) dispatcher at (rw waits refl)
          told_not_started sized in
      record {
        behind = behind;
        answer = rejected (error_reply refused);
        outcome = text "not_started";
        revision = content_revision dispatcher.revisions;
        returned = rw (abandon_operation, concludes) refl;
        told = told_not_started;
        reported = refl;
        agreed = λ steady. refl;
        json = dump refused;
        sent = refl;
        finished = finished;
        retained = retained;
        freed = freed;
        kept = kept;
      }

  text_unique :
      (answer : Answer) (json json' : Bytes)
      → IsText dump print answer json
      → IsText dump print answer json'
      → json ≡ json'
  text_unique (rejected (error_reply reply)) json json' e e' = sym e ∙ e'
  text_unique (rejected (stored_reply id stored)) json json' e e' = sym e ∙ e'
  text_unique (executed reply) json json' e e' = ground arith

  -- Suppose the mutation of a request is queued in a store that caches responses, and no cached key
  -- leads to it. When its operation has been performed, and the text of its answer is not too long to
  -- be cached, another request that is attached to the mutation and waits is answered with that very
  -- text, under its own request id.
  pub attached_same_text :
      (ref : ℕ) (entry : Entry) (handler : Script) (others : List (List Interference))
      (between : List Interference) (dispatcher behind : Dispatcher) (answer : Answer)
      (json : Bytes) (attached : OperationRequest)
      → IsPrinter request dump print
          (cancelled_reply request dispatcher)
          (run_of handler others dispatcher)
      → get_elem? dispatcher.mutations.heap ref ≡ some entry
      → entry.state ≡ queued
      → LeadElsewhere ref dispatcher.mutations dispatcher.mutations.response_lru
      → 1 ≤ dispatcher.mutations.limits.maximum_cached_responses
      → perform_operation platform dump print request (some ref) handler others between dispatcher
        ≡ ok (behind, answer)
      → IsText dump print answer json
      → length json ≤ dispatcher.mutations.limits.maximum_response_bytes
      → 0 < attached.timeout_ms
      → await_attached attached (some ref) behind
        ≡ ok (rejected (stored_reply attached.request_id json))
  unfolding await_attached attached_answer
  attached_same_text ref entry handler others between dispatcher behind answer json attached texts
        at waits elsewhere room performed sent fits timed =
      let s =
        (perform_operation_settles ref entry handler others between dispatcher texts at waits).0 in
      let pair : (s.behind, s.answer) ≡ (behind, answer) = ground (arith, s.returned, performed) in
      let same : s.json ≡ json =
        text_unique answer s.json json
          (subst (λ (a : Answer). IsText dump print a s.json) (ap (λ p. p.1) pair) s.sent) sent in
      let kept : HasResponse ref json behind.mutations =
        subst (λ (j : Bytes). HasResponse ref j behind.mutations) same
          (subst (λ (p : Dispatcher × Answer). HasResponse ref s.json p.0.mutations) pair
            (s.retained room (rw same fits) elsewhere)) in
      let (found, woken, has) =
        wait_for_completion-HasResponse ref json attached.timeout_ms behind.mutations timed kept in
      rw (await_attached, woken, attached_answer, has) refl
