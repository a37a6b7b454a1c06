-- ===== src/Telemetry.antt =====
-- The queue of query telemetry, internal/shared/db.go. The database is a library's: a row is what the
-- insert is given.
pub mod Queue
use ahlyx_labs.Common.{
  ℕ, suc, ◌<◌, ◌≡◌, Bool, true, false, not, Option, none, some, List, [], ◌∷◌, ◌++◌, Bytes, ltb,
  ◌==◌, if◌then◌else◌, length, ℤ, pos,
}

abbrev pub query_log_queue_size : ℕ
query_log_queue_size = 128

-- queryLogEntry. The counts are never negative where LogQuery is called.
pub record QueryLogEntry : Type 0 where
  pub tool : Bytes
  pub query_type : Bytes
  pub verdict : Bytes
  pub threat : Bool
  pub source_count : ℕ
  pub response_ms : ℕ
  pub host_count : ℕ
  pub port_count : ℕ

-- `connected` says that DB and the queue are there. `taken` collects what the workers received,
-- oldest first.
pub record Telemetry : Type 0 where
  pub connected : Bool
  pub queue : List QueryLogEntry
  pub taken : List QueryLogEntry
  pub dropped : ℕ

-- LogQuery: the select with its default.
unfoldable pub log_query : Telemetry → QueryLogEntry → Telemetry
log_query t entry =
    if not t.connected
    then t
    else if ltb (length t.queue) query_log_queue_size
    then record t { queue = t.queue ++ entry ∷ [] }
    else record t { dropped = suc t.dropped }

receive_from : Telemetry → List QueryLogEntry → Telemetry
receive_from t [] = t
receive_from t (entry ∷ rest) = record t { queue = rest; taken = t.taken ++ entry ∷ [] }

-- One of the workers receives the next entry.
unfoldable pub receive : Telemetry → Telemetry
unfolding receive_from
receive t = receive_from t t.queue

abbrev nullable_string : Bytes → Option Bytes
nullable_string [] = none
nullable_string (c ∷ s) = some (c ∷ s)

abbrev nullable_int : ℕ → Option ℕ
nullable_int n = if n == 0 then none else some n

pub record Row : Type 0 where
  pub tool : Option Bytes
  pub query_type : Option Bytes
  pub verdict : Option Bytes
  pub threat : Bool
  pub source_count : Option ℕ
  pub response_ms : Option ℕ
  pub host_count : Option ℕ
  pub port_count : Option ℕ

-- The values that writeQueryLog inserts.
unfoldable pub row_of : QueryLogEntry → Row
row_of entry = record {
  tool = nullable_string entry.tool;
  query_type = nullable_string entry.query_type;
  verdict = nullable_string entry.verdict;
  threat = entry.threat;
  source_count = nullable_int entry.source_count;
  response_ms = nullable_int entry.response_ms;
  host_count = nullable_int entry.host_count;
  port_count = nullable_int entry.port_count;
}

pub data Event : Type 0 where
  logs : QueryLogEntry → Event
  receives : Event

unfoldable pub step : Telemetry → Event → Telemetry
unfolding log_query receive
step t (logs entry) = log_query t entry
step t receives = receive t

-- The handlers and the workers in any order, from the start of a connected service.
unfoldable pub run : Telemetry → List Event → Telemetry
unfolding step
run t [] = t
run t (e ∷ es) = run (step t e) es

abbrev pub connected : Telemetry
connected = record { connected = true; queue = []; taken = []; dropped = 0 }
