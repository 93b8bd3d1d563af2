-- ===== src/Ipc/Trace.antt =====
-- internal/ipc/server.go: the server under any interleaving of its goroutines.
use tmidb_core.Base.{
  ℕ, ◌≤◌, ◌≡◌, Bool, true, false, List, [], ◌∷◌, Option, some, Text, length, ◌==◌, ◌||◌,
}
use tmidb_core.Ipc.{Message, Response, LogEntry, Streams, Server}
use tmidb_core.Ipc.Stream.{HandlerFunc, tail, broadcast_log_entry}
use tmidb_core.Ipc.Table.{
  accept, register, finish, cleanup_inactive_connections, stop, with_streams,
}
use tmidb_core.Ipc.Serve.{Turn, turn}

-- Whether a number stands in a list.
unfoldable pub among : ℕ → List ℕ → Bool
among k [] = false
among k (j ∷ js) = (j == k) || among k js

module _ {D : Type 0} (unmarshal : Text → Option Message) (marshal : Response D → Option Text)
    (handlers : List (Text × HandlerFunc D)) (delay : ℕ) where
  -- A step of a goroutine of the server, or a call from the logger. `delay` bounds how many
  -- goroutines that have yet to register their connection may wait when one more is accepted.
  pub data Step (s : Server) : Server → Type 0 where
    accepting : s.running ≡ true → length s.accepted ≤ delay → Step s (accept s)
    registering :
        (k : ℕ) (id : Text) (now : ℕ) → among k s.accepted ≡ true → Step s (register k id now s)
    turning :
        (k : ℕ) (t : Turn) {r : Server}
        → among k s.serving ≡ true
        → turn unmarshal marshal handlers t k s ≡ some (r, true)
        → Step s r
    finishing :
        (k : ℕ) (t : Turn) {r : Server}
        → among k s.serving ≡ true
        → turn unmarshal marshal handlers t k s ≡ some (r, false)
        → Step s (finish k r)
    cleaning : (now : ℕ) → Step s (cleanup_inactive_connections now s)
    broadcasting :
        (entry : LogEntry) {r : Streams}
        → broadcast_log_entry entry s.streams ≡ some r
        → Step s (with_streams r s)
    tailing :
        (c : ℕ) (entry : LogEntry) {r : Streams}
        → among c s.streams.tails ≡ true
        → tail c entry s.streams ≡ some r
        → Step s (with_streams r s)
    stopping : Step s (stop s)

  pub data Reach (s : Server) : Server → Type 0 where
    here : Reach s s
    next : {t r : Server} → Reach s t → Step t r → Reach s r
