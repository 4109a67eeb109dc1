-- ===== src/Ipc.antt =====
-- The framed protocol between a client and the bridge: the fixed header, the UTF-8 check, and the
-- byte stream that carries frames.
pub mod MessageKind
pub mod FrameFlags
pub mod Header
pub mod Utf8
pub mod Stream
pub mod Frame
