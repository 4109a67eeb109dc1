-- ===== src/Dispatcher/Conclusion.antt =====
-- The steps by which a callback of AviUtl2MCP.Bridge/src/request_dispatcher.cpp ends an operation: the
-- response is printed, the mutation completed, the request taken out of the registry.
use aviutl2mcp.Common.{
  ℕ, ◌^◌, ◌≤◌, ◌<◌, ◌≡◌, refl, ◌∙◌, inl, inr, false, none, some, Bytes, bytes_eq_refl, is_empty,
  text, length, get_elem?, set, List, Option, Exception, err, Result-cases, arith, Result, ok,
}
use aviutl2mcp.Common.Maps.{bytes_Eq, find-erase}
use aviutl2mcp.Platform.{Platform}
use aviutl2mcp.Cancellation
use aviutl2mcp.Cancellation.{Registry, create_key, state_of, try_begin}
use aviutl2mcp.AtMostOnce.{queued, executing, Entry, Store}
use aviutl2mcp.AtMostOnce.Operations.{is_completed, cache_response}
use aviutl2mcp.AtMostOnce.Methods.{entry_of, is_queued, mark_executing}
use aviutl2mcp.AtMostOnce.Completion.{
  IsFinished, complete_returns, complete-IsFinished, done, with_done,
}
use aviutl2mcp.AtMostOnce.Retention.{LeadElsewhere, HasResponse, complete-HasResponse}
use aviutl2mcp.Revisions.{Tracker}
use aviutl2mcp.Dispatcher.{OperationRequest, ErrorReply, error_reply, stored_reply, Dispatcher}
use aviutl2mcp.Dispatcher.Execution.{
  OperationResult, ResponseReply, Answer, rejected, executed, Context, Interference, revise_all,
  settle, internal_error, require_outcome, create_response,
}
use aviutl2mcp.Dispatcher.Callbacks.{conclude_operation, mark_mutation, respond}

-- A text that the store takes.
abbrev pub IsSized : (json : Bytes) → Type 0
IsSized json = (is_empty json ≡ false) × (length json < 2 ^ 32)

-- The result that stands in for one that cannot be printed.
abbrev pub invalid_result : Context → OperationResult
invalid_result context = internal_error (text "Native operation result was invalid") context

-- What is relied on of the JSON library's texts of one operation: the rejection where it is cancelled is
-- printed; the response to what its handler has returned may fail to be printed, but the stand-in does
-- not. No text is empty or reaches 4 GiB.
pub record IsPrinter (request : OperationRequest) (dump : ErrorReply → Bytes)
    (print : ResponseReply → Result Bytes) (refused : ErrorReply)
    (run : Context × Option OperationResult) : Type 0 where
  pub dumped : IsSized (dump refused)
  pub printed :
      (json : Bytes)
      → print (create_response request (settle run.0 run.1) run.0.revisions) ≡ ok json
      → IsSized json
  pub replacement :
      (json : Bytes) × (print (create_response request (invalid_result run.0) run.0.revisions)
        ≡ ok json)
      × IsSized json

-- The outcome that the answer names, where it names one, and the revision that it names.
abbrev pub Reports : Answer → (outcome : Bytes) → Type 0
Reports (rejected (error_reply reply)) outcome = reply.outcome ≡ outcome
Reports (rejected (stored_reply id json)) outcome = Unit
Reports (executed reply) outcome = elim reply.error [
  | none ↦ Unit
  | some error ↦ error.outcome ≡ outcome
]

abbrev pub Names : Answer → (revision : Bytes) → Type 0
Names (rejected (error_reply reply)) revision = reply.revision ≡ revision
Names (rejected (stored_reply id json)) revision = Unit
Names (executed reply) revision = reply.revision ≡ revision

-- No other thread changes the tracker meanwhile.
abbrev pub IsSteady : List Interference → Type 0
IsSteady between = (revisions : Tracker) → revise_all between revisions ≡ revisions

-- The text that the answer is sent as.
abbrev pub IsText :
    (ErrorReply → Bytes) → (ResponseReply → Result Bytes) → Answer → (json : Bytes) → Type 0
IsText dump print (rejected (error_reply reply)) json = dump reply ≡ json
IsText dump print (rejected (stored_reply id stored)) json = stored ≡ json
IsText dump print (executed reply) json = print reply ≡ ok json

-- A store that caches the text, in which no cached key leads to `ref`, hands the text out behind.
abbrev pub Retains : ℕ → Bytes → (before after : Store) → Type 0
Retains ref json before after =
    1 ≤ before.limits.maximum_cached_responses
    → length json ≤ before.limits.maximum_response_bytes
    → LeadElsewhere ref before before.response_lru
    → HasResponse ref json after

-- The end of the operation whose mutation stands at `ref`: the answer, what the store says from then
-- on, the registry without the request, and the gate as it was.
pub record IsSettled (dump : ErrorReply → Bytes) (print : ResponseReply → Result Bytes)
    (request : OperationRequest) (ref : ℕ) (between : List Interference) (dispatcher : Dispatcher)
    (run : Result (Dispatcher × Answer)) : Type 0 where
  pub behind : Dispatcher
  pub answer : Answer
  pub outcome : Bytes
  pub revision : Bytes
  pub returned : run ≡ ok (behind, answer)
  pub told : is_empty outcome ≡ false
  pub reported : Reports answer outcome
  pub agreed : IsSteady between → Names answer revision
  pub json : Bytes
  pub sent : IsText dump print answer json
  pub finished : IsFinished ref outcome revision behind.mutations
  pub retained : Retains ref json dispatcher.mutations behind.mutations
  pub freed : state_of request.request_id behind.cancellations ≡ none
  pub kept : behind.gate ≡ dispatcher.gate

state_of-complete :
    (id : Bytes) (registry : Registry) → state_of id (Cancellation.complete id registry) ≡ none
unfolding state_of Cancellation.complete
state_of-complete id registry =
    find-erase (create_key id) (create_key id) registry ∙ rw (bytes_eq_refl (create_key id)) refl

pub told_unknown : is_empty (text "unknown") ≡ false
unfolding text
told_unknown = refl

pub told_unchanged : is_empty (text "unchanged") ≡ false
unfolding text
told_unchanged = refl

pub require_outcome-told :
    (context : Context) (result : OperationResult)
    → is_empty (require_outcome context result).outcome ≡ false
unfolding require_outcome
require_outcome-told context result = ground (arith, told_unknown, told_unchanged)

pub told_not_started : is_empty (text "not_started") ≡ false
unfolding text
told_not_started = refl

module _ (platform : Platform) (dump : ErrorReply → Bytes) (print : ResponseReply → Result Bytes)
    (request : OperationRequest) where
  -- Where `conclude_operation` finds the mutation open, it settles it.
  pub conclude_operation_settles :
      (ref : ℕ) (entry : Entry) (outcome revision response : Bytes) (dispatcher : Dispatcher)
      → get_elem? dispatcher.mutations.heap ref ≡ some entry
      → is_completed entry.state ≡ false
      → is_empty outcome ≡ false
      → (is_empty response ≡ false) × (length response < 2 ^ 32)
      → (behind : Dispatcher) × (conclude_operation platform dump print request
            (some ref)
            outcome
            revision
            response
            dispatcher
          ≡ ok behind)
        × IsFinished ref outcome revision behind.mutations
        × Retains ref response dispatcher.mutations behind.mutations
        × (state_of request.request_id behind.cancellations ≡ none)
        × (behind.gate ≡ dispatcher.gate)
  unfolding conclude_operation
  conclude_operation_settles ref entry outcome revision response dispatcher at open_state told
        (some_text, short) =
      let store = dispatcher.mutations in
      let completes =
        complete_returns platform ref outcome revision response store entry at open_state told
          some_text short in
      (
        record dispatcher {
          mutations =
              cache_response ref (done platform ref outcome revision response store entry) response
                (with_done platform ref outcome revision response store entry);
          cancellations = Cancellation.complete request.request_id dispatcher.cancellations;
        },
        rw (conclude_operation, completes) refl,
        complete-IsFinished platform ref outcome revision response store entry at,
        complete-HasResponse platform ref outcome revision response store entry at,
        state_of-complete request.request_id dispatcher.cancellations,
        refl,
      )

  -- The result that is answered: what the handler's return settles to, if its response is printed, and
  -- the stand-in otherwise.
  pub data IsResult (run : Context × Option OperationResult) (result : OperationResult)
      : Type 0 where
    its_own : result ≡ settle run.0 run.1 → IsResult run result
    stand_in :
        (thrown : Exception)
        → print (create_response request (settle run.0 run.1) run.0.revisions) ≡ err thrown
        → result ≡ invalid_result run.0
        → IsResult run result

  -- What `respond` returns where the texts are as they are relied on.
  pub respond_prints :
      (refused : ErrorReply) (run : Context × Option OperationResult)
      → IsPrinter request dump print refused run
      → (result : OperationResult) × (json : Bytes) × (respond platform dump print request run.0
            (settle run.0 run.1)
          ≡ ok (result, create_response request result run.0.revisions, json))
        × IsResult run result
        × (is_empty result.outcome ≡ false)
        × IsSized json
        × (print (create_response request result run.0.revisions) ≡ ok json)
        × Reports (executed (create_response request result run.0.revisions)) result.outcome
  unfolding respond
  respond_prints refused (context, returned) texts =
      let settled = settle context returned in
      let response = create_response request settled context.revisions in
      elim (Result-cases (print response)) [
        | inl (json, printed) ↦ (
          settled,
          json,
          rw (respond, printed) refl,
          its_own refl,
          unfold settle in require_outcome-told context _,
          texts.printed json printed,
          printed,
          unfold create_response in ground arith,
        )
        | inr (thrown, failed) ↦
            let (json, printed, sized) = texts.replacement in
            (
              invalid_result context,
              json,
              rw (respond, failed, printed) refl,
              stand_in thrown failed refl,
              unfold internal_error in ground (arith, told_unknown, told_unchanged),
              sized,
              printed,
              unfold create_response in unfold internal_error in ground arith,
            )
      ]

  pub mark_mutation_queued :
      (ref : ℕ) (entry : Entry) (dispatcher : Dispatcher)
      → get_elem? dispatcher.mutations.heap ref ≡ some entry
      → entry.state ≡ queued
      → mark_mutation platform dump print (some ref) dispatcher
        ≡ ok (record dispatcher {
          mutations = record dispatcher.mutations {
            heap = set dispatcher.mutations.heap ref (record entry { state = executing });
          };
        })
  unfolding mark_mutation mark_executing entry_of is_queued
  mark_mutation_queued ref entry dispatcher at waits = rw (mark_executing, entry_of, at, waits) refl
