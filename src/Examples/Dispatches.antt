-- ===== src/Examples/Dispatches.antt =====
-- A mutation that AviUtl2MCP.Bridge/src/request_dispatcher.cpp puts on the gate, and one whose request
-- id is active already.
use aviutl2mcp.Common.{◌≡◌, refl, true, false, none, some, [], ◌∷◌, Bytes, bytes_eq, text, ok}
use aviutl2mcp.Common.Maps.{find}
use aviutl2mcp.Common.Hex.{hex, hex_digit}
use aviutl2mcp.Cancellation.{RequestState, create_key, state_of, register_request}
use aviutl2mcp.AtMostOnce.{accepted}
use aviutl2mcp.AtMostOnce.Operations.{answer}
use aviutl2mcp.Gate.{enqueue, try_enqueue}
use aviutl2mcp.Dispatcher.{
  OperationRequest, ErrorReply, error_reply, run_operation, stop_operation, Dispatcher,
  create_error, early_reply, enqueue_operation, register_operation, continue_mutation, dispatch,
}
use aviutl2mcp.Dispatcher.Admission.{IsQueued, dispatch_strands_mutation}
use aviutl2mcp.Dispatcher.Delivery.{Dispatched, dispatch-Dispatched}
use aviutl2mcp.Examples.Mutations.{a_platform, a_key, fresh_store, begun_store, repeated, key-begun}

abbrev some_text : ErrorReply → Bytes
some_text reply = reply.code

abbrev pub a_request : OperationRequest
a_request = record {
  request_id = a_key.request_id;
  method = b'm' ∷ [];
  correlation_id = b'c' ∷ [];
  timeout_ms = 1000;
  expected_revision = none;
  dry_run = false;
  params_json = b'{' ∷ b'}' ∷ [];
  binary = [];
}

abbrev idle : Dispatcher
idle = record {
  server_epoch = b'e' ∷ [];
  mutations = fresh_store;
  cancellations = [];
  gate = record { maximum_queue_depth = 2; queue = []; is_stopping = false };
  revisions = record {
    server_epoch = b'e' ∷ [];
    project_generation = b'g' ∷ [];
    content_counter = 0;
    view_counter = 0;
  };
}

abbrev pub waiting : Dispatcher
waiting = record idle {
  mutations = begun_store;
  cancellations = (create_key a_key.request_id, RequestState.queued) ∷ [];
  gate = record idle.gate {
    queue =
        record {
          execute = run_operation a_request (some 0);
          cancel = stop_operation a_request (some 0);
        }
        ∷ [];
  };
}

abbrev occupied : Dispatcher
occupied = record idle {
  cancellations = (create_key a_key.request_id, RequestState.executing) ∷ [];
}

id-active : (register_request a_key.request_id occupied.cancellations).1 ≡ false
unfolding register_request state_of find bytes_eq create_key hex hex_digit
id-active = refl

request-dispatched :
    dispatch a_platform some_text true 1000 (b'c' ∷ []) (repeated 64) a_request idle
    ≡ ok (waiting, none)
unfolding dispatch continue_mutation early_reply register_operation enqueue_operation
    register_request state_of find try_enqueue enqueue
request-dispatched = rw key-begun refl

dispatch_strands_mutation_example :
    (dispatch a_platform some_text true 1000 (b'c' ∷ []) (repeated 64) a_request occupied
      ≡ ok (
        record occupied { mutations = begun_store },
        some (
            error_reply (
              create_error a_request
                (text "request_id_conflict")
                (text "Request ID is already active")
                (text "not_started")
                false
                none
                occupied.revisions)),
      ))
    × IsQueued a_key (some 0) begun_store
dispatch_strands_mutation_example =
    dispatch_strands_mutation a_platform some_text 1000 (b'c' ∷ []) (repeated 64) a_request occupied
      begun_store (answer accepted (some 0) none) key-begun refl id-active

dispatch-Dispatched_example :
    Dispatched a_platform some_text true 1000 (b'c' ∷ []) (repeated 64) a_request idle waiting none
dispatch-Dispatched_example =
    dispatch-Dispatched a_platform some_text true 1000 (b'c' ∷ []) (repeated 64) a_request idle
      waiting none request-dispatched
