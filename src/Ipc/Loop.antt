-- ===== src/Ipc/Loop.antt =====
-- internal/ipc/server.go: the loop that serves a connection ends, answers one request, and leaves
-- neither an entry of the connection nor one of its stream.
use tmidb_core.Base.{ℕ, ◌≡◌, true, none, Text}
use tmidb_core.Base.Dict.{lookup}
use tmidb_core.Ipc.{Server}

-- The connection is out of both tables, and its socket is closed.
pub record IsGone (k : ℕ) (id : Text) (s : Server) : Type 0 where
  pub table : lookup id s.connections ≡ none
  pub stream : lookup id s.streams.log_streams ≡ none
  pub closed : (s.connection k).closed ≡ true
