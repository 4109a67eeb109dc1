-- ===== src/Examples/Logs.antt =====
-- Rings of two and of three places of AviUtl2MCP.Bridge/src/native_ring_logger.cpp, and pages.
use aviutl2mcp.Common.{
  ℕ, zero, suc, ◌+◌, ◌-◌, ◌^◌, ◌<◌, ◌≤◌, ◌≡◌, refl, true, false, none, some, List, [], ◌∷◌, ◌++◌,
  ltb, length, take, drop, ok, arith,
}
use aviutl2mcp.Common.Ints.{pos}
use aviutl2mcp.RingLog.{
  LogEntry, LogQuery, LogSnapshot, RingLogger, information, create, make_room, push_entry, write,
  includes_level, skips, collect, last_sequence, to_snapshot, snapshot, truncate_message,
  maximum_host_message_chars,
}
use aviutl2mcp.RingLog.Pages.{pages_continue}
use aviutl2mcp.RingLog.Paging.{matching, continued}
use aviutl2mcp.RingLog.Retention.{write_each, logged, numbered, write_each-Holds}
use aviutl2mcp.RingLog.Truncation.{is_utf16, truncate_message-is_utf16}

abbrev an_entry : ℕ → ℕ → LogEntry
an_entry sequence letter = record {
  sequence = sequence;
  timestamp_utc = [];
  timestamp_unix_ms = pos 5;
  level = information;
  source = [];
  component = b'c' ∷ [];
  event_id = b'e' ∷ [];
  correlation_id = none;
  instance_id = none;
  operation = none;
  duration_ms = none;
  result_code = none;
  message = letter ∷ [];
}

abbrev three_entries : List LogEntry
three_entries = an_entry 0 b'x' ∷ an_entry 0 b'y' ∷ an_entry 0 b'z' ∷ []

abbrev empty_ring : RingLogger
empty_ring = record { capacity = 2; entries = []; next_sequence = 1; has_evicted_entries = false }

-- A ring of three places, and an entry that evicts the first of three.
abbrev three_places : RingLogger
three_places = record { capacity = 3; entries = []; next_sequence = 1; has_evicted_entries = false }

abbrev a_fourth : List LogEntry
a_fourth = an_entry 0 b'w' ∷ []

abbrev a_query : LogQuery
a_query = record {
  limit = 1;
  after_sequence = none;
  since_unix_ms = some (pos 5);
  correlation_id = none;
  component = none;
  levels = [];
}

abbrev a_page : LogSnapshot
a_page = record {
  entries = an_entry 1 b'x' ∷ [];
  is_truncated = true;
  has_evicted_entries = false;
  next_sequence = some 1;
}

abbrev a_second_page : LogSnapshot
a_second_page = record {
  entries = an_entry 2 b'y' ∷ [];
  is_truncated = true;
  has_evicted_entries = true;
  next_sequence = some 2;
}

ring-created : create 2 ≡ ok empty_ring
unfolding create
ring-created = refl

places-created : create 3 ≡ ok three_places
unfolding create
places-created = refl

page-taken : snapshot a_query (write_each three_entries three_places) ≡ ok a_page
unfolding write_each write push_entry make_room snapshot to_snapshot collect skips includes_level
    last_sequence
page-taken = refl

-- The first entry, which the first page gave, is evicted before the second page is asked for.
second_page-taken :
    snapshot
      (continued a_query (some 1))
      (write_each a_fourth (write_each three_entries three_places))
    ≡ ok a_second_page
unfolding continued write_each write push_entry make_room snapshot to_snapshot collect skips
    includes_level last_sequence
second_page-taken = refl

few-logged : 1 + length (logged three_entries) < 2 ^ 64
unfolding logged
few-logged = omega arith

few-logged_later : 1 + length (logged three_entries) + length (logged a_fourth) < 2 ^ 64
unfolding logged
few-logged_later = omega arith

few-unread : length (logged three_entries) + length (logged a_fourth) ≤ 3 + 1
unfolding logged
few-unread = omega arith

pages_continue_example :
    a_page.entries ++ a_second_page.entries
    ≡ take (length a_page.entries + 1) (
        matching a_query (
          (write_each three_entries three_places).entries
          ++ numbered (1 + length (logged three_entries)) (logged a_fourth)))
pages_continue_example =
    pages_continue 3 three_places three_entries a_fourth a_query a_page a_second_page 1
      places-created few-logged_later page-taken refl refl few-unread second_page-taken

write_each-Holds_example :
    ((write_each three_entries empty_ring).entries
      ≡ drop (length (logged three_entries) - 2) (numbered 1 (logged three_entries)))
    × ((write_each three_entries empty_ring).has_evicted_entries
        ≡ ltb 2 (length (logged three_entries)))
write_each-Holds_example = write_each-Holds 2 empty_ring three_entries ring-created few-logged

abbrev letters : ℕ → List ℕ
letters zero = []
letters (suc n) = b'a' ∷ letters n

-- A pair of surrogates stands where the message is cut.
abbrev a_message : List ℕ
a_message = letters 1019 ++ (0xd83d ∷ 0xde00 ∷ letters 10)

message-well_formed : is_utf16 false a_message ≡ true
unfolding is_utf16
message-well_formed = refl

truncate_message-is_utf16_example :
    (is_utf16 false (truncate_message a_message) ≡ true)
    × (length (truncate_message a_message) ≤ maximum_host_message_chars)
truncate_message-is_utf16_example = truncate_message-is_utf16 a_message message-well_formed
