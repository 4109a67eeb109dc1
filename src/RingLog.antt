-- ===== src/RingLog.antt =====
-- AviUtl2MCP.Bridge/src/native_ring_logger.cpp and include/aviutl2_mcp/native_ring_logger.h: the last
-- log entries of the bridge, and the query that reads them page by page. The conversions of
-- `write` before the mutex make the entry, which is an argument; `truncate_message` is one of them.
-- A duration, a double that is only handed on, is a number.
pub mod Paging
pub mod Pages
pub mod Retention
pub mod Truncation
use aviutl2mcp.Common.{
  ℕ, suc, ◌+◌, ◌-◌, ◌%◌, ◌^◌, Bool, true, false, not, ◌&&◌, ◌||◌, Option, none, some, List, [], ◌∷◌,
  ◌++◌, Bytes, bytes_eq, ltb, leb, ◌==◌, if◌then◌else◌, length, take, drop, get_or, is_empty, text,
  Result, ok, err, ◌>>=◌, ◌>>◌, throw_if, invalid_argument,
}
use aviutl2mcp.Common.Ints.{ℤ, int_lt}

pub data LogLevel : Type 0 where
  trace information warning error : LogLevel

pub record LogEntry : Type 0 where
  pub sequence : ℕ
  pub timestamp_utc : Bytes
  pub timestamp_unix_ms : ℤ
  pub level : LogLevel
  pub source : Bytes
  pub component : Bytes
  pub event_id : Bytes
  pub correlation_id : Option Bytes
  pub instance_id : Option Bytes
  pub operation : Option Bytes
  pub duration_ms : Option ℕ
  pub result_code : Option Bytes
  pub message : Bytes

pub record LogQuery : Type 0 where
  pub limit : ℕ
  pub after_sequence : Option ℕ
  pub since_unix_ms : Option ℤ
  pub correlation_id : Option Bytes
  pub component : Option Bytes
  pub levels : List LogLevel

pub record LogSnapshot : Type 0 where
  pub entries : List LogEntry
  pub is_truncated : Bool
  pub has_evicted_entries : Bool
  pub next_sequence : Option ℕ

pub record RingLogger : Type 0 where
  pub capacity : ℕ
  pub entries : List LogEntry
  pub next_sequence : ℕ
  pub has_evicted_entries : Bool

abbrev pub maximum_query_limit : ℕ
maximum_query_limit = 2000

abbrev pub maximum_host_message_chars : ℕ
maximum_host_message_chars = 1023

-- On UTF-16 units; 0x2e is the full stop.
unfoldable pub truncate_message : List ℕ → List ℕ
truncate_message value =
    let prefix_length = maximum_host_message_chars - 3 in
    let final_character = get_or value (prefix_length - 1) 0 in
    let shorter =
      if leb 0xd800 final_character && leb final_character 0xdbff
      then prefix_length - 1
      else prefix_length in
    if leb (length value) maximum_host_message_chars
    then value
    else take shorter value ++ (0x2e ∷ 0x2e ∷ 0x2e ∷ [])

-- The constructor.
unfoldable pub create : ℕ → Result RingLogger
create capacity = do
  throw_if (capacity == 0) (invalid_argument "native log capacity must be positive")
  ok (record { capacity = capacity; entries = []; next_sequence = 1; has_evicted_entries = false })

-- `entries_.pop_front()` on a full ring.
unfoldable pub make_room : RingLogger → RingLogger
make_room logger =
    if length logger.entries == logger.capacity
    then record logger { entries = drop 1 logger.entries; has_evicted_entries = true }
    else logger

-- The part of `write` under the mutex. `next_sequence_++` is on a uint64_t.
unfoldable pub push_entry : LogEntry → RingLogger → RingLogger
push_entry entry logger =
    let roomy = make_room logger in
    record roomy {
      entries = roomy.entries ++ (record entry { sequence = logger.next_sequence } ∷ []);
      next_sequence = (logger.next_sequence + 1) % 2 ^ 64;
    }

-- `write` logs nothing where the component or the event id is empty: the exception is swallowed.
unfoldable pub write : LogEntry → RingLogger → RingLogger
write entry logger =
    let written = push_entry entry logger in
    if is_empty entry.component || is_empty entry.event_id then logger else written

unfoldable pub level_eq : LogLevel → LogLevel → Bool
level_eq trace trace = true
level_eq information information = true
level_eq warning warning = true
level_eq error error = true
level_eq _ _ = false

unfoldable pub find_level : List LogLevel → LogLevel → Bool
find_level [] level = false
find_level (l ∷ levels) level = level_eq l level || find_level levels level

unfoldable pub includes_level : List LogLevel → LogLevel → Bool
includes_level levels level = is_empty levels || find_level levels level

-- `entry.correlation_id == query.correlation_id` where the query has one.
unfoldable pub optional_eq : Option Bytes → Bytes → Bool
optional_eq none wanted = false
optional_eq (some value) wanted = bytes_eq value wanted

-- The tests of `snapshot` that skip an entry.
unfoldable pub skips : LogQuery → LogEntry → Bool
skips query entry =
    elim query.after_sequence [ none ↦ false | some after ↦ leb entry.sequence after ]
    || (elim query.since_unix_ms [
      | none ↦ false
      | some since ↦ int_lt entry.timestamp_unix_ms since
    ]
        || (elim query.correlation_id [
          | none ↦ false
          | some id ↦ not (optional_eq entry.correlation_id id)
        ]
            || (elim query.component [
              | none ↦ false
              | some name ↦ not (bytes_eq entry.component name)
            ]
                || not (includes_level query.levels entry.level))))

-- The loop of `snapshot` behind the entries `found`: these with those that it adds, and `is_truncated`.
unfoldable pub collect : LogQuery → List LogEntry → List LogEntry → List LogEntry × Bool
collect query found [] = (found, false)
collect query found (entry ∷ entries) =
    let skipped = collect query found entries in
    let taken = collect query (found ++ (entry ∷ [])) entries in
    if skips query entry
    then skipped
    else if length found == query.limit
    then (found, true)
    else taken

-- `result.entries.back().sequence`, where there is one.
unfoldable pub last_sequence : List LogEntry → Option ℕ
last_sequence [] = none
last_sequence (entry ∷ []) = some entry.sequence
last_sequence (entry ∷ next ∷ entries) = last_sequence (next ∷ entries)

unfoldable pub to_snapshot : RingLogger → List LogEntry × Bool → LogSnapshot
to_snapshot logger (found, is_truncated) = record {
  entries = found;
  is_truncated = is_truncated;
  has_evicted_entries = logger.has_evicted_entries;
  next_sequence = if is_truncated && not (is_empty found) then last_sequence found else none;
}

unfoldable pub snapshot : LogQuery → RingLogger → Result LogSnapshot
snapshot query logger = do
  throw_if (query.limit == 0 || ltb maximum_query_limit query.limit)
      (invalid_argument "native log query limit is invalid")
  ok (to_snapshot logger (collect query [] logger.entries))
