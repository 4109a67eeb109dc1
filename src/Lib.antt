-- ===== src/Lib.antt =====
-- The protocol and concurrency core of the AviUtl2 MCP bridge: the native plug-in under
-- src/AviUtl2MCP.Bridge that serves requests of an MCP server over a named pipe inside the editor.
--
-- A client connects to the pipe and sends frames: a header of 40 bytes, a JSON text and binary data.
-- The dispatcher looks a mutating request up in the at-most-once store, registers it for
-- cancellation and hands it to the command gate, whose one worker executes it and commits a new
-- revision of the project. The files follow these parts; in the list a path is from
-- src/AviUtl2MCP.Bridge, X.cpp under src/ and X.h under include/aviutl2_mcp/.
--
--   Common        shared names: tests, lists, bytes, maps, and exceptions as values (`Result`).
--   Platform      what Windows provides, as the record `Platform`: SHA-256, the UUID parser, the
--                 clock's resolution; `uuid_equals` and `is_nonzero_uuid` of bridge_identity.cpp.
--   Ipc.Header    ipc_header.cpp: `validate_header`, `encode_header`, `decode_header`.
--   Ipc.Utf8      `validate_utf8` of native_ipc_frame_codec.cpp.
--   Ipc.Stream    `byte_transport`, `read_exact` and `write_all`; a transport is an interface, and
--                 `IsStream` is the law of one that is a byte stream.
--   Ipc.Frame     `calculate_payload_hash`, `read_frame` and `write_frame`.
--   Handshake     handshake.cpp: the protocol version and the limits that are agreed on.
--   Cancellation  cancellation_registry.cpp: requests and the commit point.
--   AtMostOnce    at_most_once_store.cpp: tombstones, deadlines, cached responses.
--   Revisions     revision_tracker.cpp: counters and revision texts.
--   Gate          command_gate.cpp: the bounded queue and its worker.
--   RingLog       native_ring_logger.cpp: the ring of log entries, its pages, truncated messages.
--   Dispatcher    request_dispatcher.cpp: `dispatch`, which composes store, registry and gate; the
--                 callbacks that execute, stop or wait for an operation; `cancel` and `stop`.
--   PsdCodecs     psd_codecs.cpp: what is tested and escaped for PSDToolKit objects.
--   PsdContract   psd_contract.cpp: detection of the supported PSDToolKit.
--   Locators      locator_resolver.cpp: the object that a locator stands for.
--   Batch         sdk_read_facade.cpp: `edit_batch`, which tests a batch, and `edit_sdk_batch`, which plans
--                 and executes it; `execute` of native_batch_request_handler.cpp.
--   Examples      the same code run at concrete inputs.
--
-- State is a record and a method is a function from state to state beside its result; a method that
-- holds its mutex from end to end is one step. Exceptions are values of `Exception`. A
-- `std::shared_ptr<mutation_entry>` is a position in a heap of entries, since a token outlives the
-- tombstone. A map is an association list. The clock's reading is an argument.
--
-- Bounds and fuel: `read_loop` has one unit of fuel for each byte wanted and `write_loop` one for each
-- byte to pass on, since every round moves a byte at least; `validate_loop` has one for each byte of the
-- text. Lengths are bounded by the limits of the protocol, 8 MiB and 16 MiB. The revision counters are
-- numbers below 2 ^ 64 with the wrap-around written out; `to_string` has twenty digits, enough for
-- them. The scan of a timeline has as fuel what the code's own limit of one million calls leaves. An `int` of
-- the SDK is a whole number; the code's tests against its largest value are made.
-- Other threads act between the steps of a callback, by calls on the registry and, when a project is
-- loaded, by `reset_project`; one of the points is between the making of a response and the completion
-- of its mutation.
--
-- Times are natural numbers, in ticks of `system_clock`; the test of a request's age has its
-- subtraction on the other side.
--
-- Not modelled: calls of the editor's SDK, of window messages and of the file system; the pipe server's
-- overlapped I/O; JSON, which a third-party library parses; the failures of BCrypt; the memory limits of
-- the machine; the operation handlers, which the dispatcher knows as any script of calls on their context;
-- of the dispatcher the parsing of requests, the printing of responses and the threads that pass answers
-- on; of a batch what a single edit does in the editor, which is a function from a state of the editor,
-- and the printing of its JSON texts. The editor is taken to run the callback of `call_edit` wholly or not at
-- all and to throw nothing behind it, and to hand over an edit section that is there. `begin` reads the clock
-- in the step in which it holds the mutex, `stop` of the gate calls the callbacks that cancel in its own step,
-- the lower-case hexadecimal text of a digest belongs to the SHA-256 of `Platform`, and the conversions of
-- `write` in the log are done before.
pub mod Common
pub mod Platform
pub mod Ipc
pub mod Handshake
pub mod Cancellation
pub mod AtMostOnce
pub mod Revisions
pub mod Gate
pub mod Dispatcher
pub mod RingLog
pub mod PsdCodecs
pub mod PsdContract
pub mod Locators
pub mod Batch
pub mod Examples
