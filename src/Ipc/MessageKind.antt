-- ===== src/Ipc/MessageKind.antt =====
-- `message_kind` of AviUtl2MCP.Bridge/include/aviutl2_mcp/ipc_header.h, as bytes.
use aviutl2mcp.Common.{ℕ}

abbrev pub client_hello : ℕ
client_hello = 1

abbrev pub request : ℕ
request = 3

abbrev pub response : ℕ
response = 4

abbrev pub cancel : ℕ
cancel = 5

abbrev pub cancel_ack : ℕ
cancel_ack = 6

abbrev pub close : ℕ
close = 9
