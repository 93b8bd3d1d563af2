-- ===== src/Ipc/Table.antt =====
-- internal/ipc/server.go: the table of connections, its limit, and the removal of connections.
use tmidb_core.Base.{
  ℕ, suc, ◌+◌, Bool, true, false, List, [], ◌∷◌, Text, length, ltb, leb, ◌==◌, if◌then◌else◌,
}
use tmidb_core.Base.Dict.{insert, delete, delete_keys, select}
use tmidb_core.Ipc.{Streams, Connection, Server}
use tmidb_core.Ipc.Stream.{fresh, forget_stream}

abbrev pub max_connections : ℕ
max_connections = 100

-- 5 minutes, in nanoseconds
abbrev pub inactive_after : ℕ
inactive_after = 300000000000

unfoldable pub without : ℕ → List ℕ → List ℕ
without k [] = []
without k (j ∷ js) = let rest = without k js in if j == k then rest else j ∷ rest

abbrev pub write_connection : ℕ → Connection → (ℕ → Connection) → ℕ → Connection
write_connection k conn connections j = if j == k then conn else connections j

-- `conn.Conn.Close()`
abbrev pub hang_up : Connection → Connection
hang_up conn = record conn { closed = true }

-- `NewServer` and `Start`
abbrev pub new_streams : Streams
new_streams = record { log_streams = []; channel = λ c. fresh; made = 0; tails = [] }

unfoldable pub new_server : Server
new_server = record {
  connections = [];
  connection = λ k. record { id = []; last_seen = 0; sent = []; closed = false };
  arrived = 0;
  accepted = [];
  serving = [];
  streams = new_streams;
  running = true;
}

unfoldable pub refuse : Server → Server
refuse s = record s {
  connection = write_connection s.arrived (hang_up (s.connection s.arrived)) s.connection;
  arrived = suc s.arrived;
}

-- `go s.handleConnection(conn)`
unfoldable pub start_goroutine : Server → Server
start_goroutine s = record s { arrived = suc s.arrived; accepted = s.arrived ∷ s.accepted }

-- What the loop of `acceptConnections` does with a connection that `Accept` returns.
unfoldable pub accept : Server → Server
accept s = if leb max_connections (length s.connections) then refuse s else start_goroutine s

-- `handleConnection` up to its loop, with the identifier that `generateID` gives.
unfoldable pub register : ℕ → Text → ℕ → Server → Server
register k id now s = record s {
  connections = insert id k s.connections;
  connection =
      write_connection k (record { id = id; last_seen = now; sent = []; closed = false })
        s.connection;
  accepted = without k s.accepted;
  serving = k ∷ s.serving;
}

unfoldable pub remove_connection : Text → Server → Server
remove_connection id s = record s {
  connections = delete id s.connections;
  streams = forget_stream id s.streams;
}

-- `conn.cleanup()`, at the end of `handleConnection`
unfoldable pub finish : ℕ → Server → Server
finish k s =
    let t = remove_connection (s.connection k).id s in
    record t {
      connection = write_connection k (hang_up (s.connection k)) s.connection;
      serving = without k t.serving;
    }

-- `conn.LastSeen.Before(cutoff)`
unfoldable pub is_inactive : ℕ → (ℕ → Connection) → Text → ℕ → Bool
is_inactive now connection id k = ltb ((connection k).last_seen + inactive_after) now

-- `Close` of each socket of a table
unfoldable pub hang_up_all : (Text → ℕ → Bool) → List (Text × ℕ) → (ℕ → Connection) → ℕ → Connection
hang_up_all p [] connection = connection
hang_up_all p ((id, k) ∷ m) connection =
    let rest = hang_up_all p m connection in
    if p id k then write_connection k (hang_up (rest k)) rest else rest

unfoldable pub cleanup_inactive_connections : ℕ → Server → Server
cleanup_inactive_connections now s =
    let p = is_inactive now s.connection in
    record s {
      connections = delete_keys (select p s.connections) s.connections;
      connection = hang_up_all p s.connections s.connection;
    }

-- `Stop`, the socket file aside
unfoldable pub stop : Server → Server
stop s = record s {
  connection = hang_up_all (λ id k. true) s.connections s.connection;
  running = false;
}

unfoldable pub get_connection_count : Server → ℕ
get_connection_count s = length s.connections

-- A server whose streams a handler, a broadcast or a tailing goroutine has changed.
abbrev pub with_streams : Streams → Server → Server
with_streams streams s = record s { streams = streams }
