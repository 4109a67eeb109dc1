-- ===== src/Ipc/FrameFlags.antt =====
-- `frame_flags` of AviUtl2MCP.Bridge/include/aviutl2_mcp/ipc_header.h, as bytes.
use aviutl2mcp.Common.{ℕ}

-- `none`.
abbrev pub no_flags : ℕ
no_flags = 0

abbrev pub has_binary : ℕ
has_binary = 1

abbrev pub error_response : ℕ
error_response = 2

abbrev pub partial_response : ℕ
partial_response = 4
