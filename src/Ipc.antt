-- ===== src/Ipc.antt =====
-- internal/ipc/types.go, internal/ipc/server.go: messages, responses and log entries, and the state
-- of the server.
pub mod Stream
pub mod Owned
pub mod Broadcast
pub mod Table
pub mod Serve
pub mod Behaved
pub mod Turning
pub mod Loop
pub mod Request
pub mod Effect
pub mod Trace
pub mod Limit
pub mod Flood
pub mod Leak
pub mod Panic
pub mod Order
mod Tests
use tmidb_core.Base.{ℕ, ℤ, Bool, List, [], ◌∷◌, Option, none, some, Text}
use tmidb_core.Base.Dict.{lookup}

-- A value of `map[string]interface{}`, as far as a type assertion `.(string)` tells it apart.
pub data DataValue : Type 0 where
  string : Text → DataValue
  number : ℤ → DataValue  -- a float64, as `int` makes it
  other : DataValue

pub record Message : Type 0 where
  pub id : Text
  pub type_ : Text
  pub data_ : List (Text × DataValue)

-- `value, ok := msg.Data[key].(string)`
unfoldable pub string_at : Text → Message → Option Text
string_at key msg = elim (lookup key msg.data_) [
  | none ↦ none
  | some v ↦ elim v [ string t ↦ some t | number n ↦ none | other ↦ none ]
]

-- `if l, ok := msg.Data[key].(float64); ok { … int(l) }`
unfoldable pub number_at : Text → Message → Option ℤ
number_at key msg = elim (lookup key msg.data_) [
  | none ↦ none
  | some v ↦ elim v [ string t ↦ none | number n ↦ some n | other ↦ none ]
]

-- No error is the empty text.
pub record Response (D : Type 0) : Type 0 where
  pub id : Text
  pub success : Bool
  pub data_ : Option D
  pub error : Text

unfoldable pub new_response : {D : Type 0} → Text → Bool → Option D → Text → Response D
new_response id success data_ error = record {
  id = id;
  success = success;
  data_ = data_;
  error = error;
}

pub record LogEntry : Type 0 where
  pub process : Text
  pub level : Text
  pub message : Text
  pub timestamp : ℕ

-- `chan LogEntry`: the entries sent and not received, the oldest first.
pub record Channel : Type 0 where
  pub buffer : List LogEntry
  pub closed : Bool

-- The log streams of a server: which channel stands under which connection, and the channels by
-- the order in which they were made. `tails` are the channels that a goroutine tails a file into.
pub record Streams : Type 0 where
  pub log_streams : List (Text × ℕ)
  pub channel : ℕ → Channel
  pub made : ℕ
  pub tails : List ℕ

-- A connection, which the table of connections and its goroutine share; `sent` are the lines written
-- to its socket, and `closed` is the state of the socket.
pub record Connection : Type 0 where
  pub id : Text
  pub last_seen : ℕ
  pub sent : List Text
  pub closed : Bool

-- The server with its goroutines: `accepted` are those that `acceptConnections` has started and
-- that have not registered their connection, `serving` those that have and still run. A socket is
-- named by the order of its acceptance, of which `arrived` is the count.
pub record Server : Type 0 where
  pub connections : List (Text × ℕ)
  pub connection : ℕ → Connection
  pub arrived : ℕ
  pub accepted : List ℕ
  pub serving : List ℕ
  pub streams : Streams
  pub running : Bool
