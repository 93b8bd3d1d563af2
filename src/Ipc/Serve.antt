-- ===== src/Ipc/Serve.antt =====
-- internal/ipc/server.go: the loop that serves one connection.
use tmidb_core.Base.{
  ℕ, zero, suc, Bool, true, false, List, [], ◌∷◌, ◌++◌, Option, none, some, Text, bytes,
  if◌then◌else◌, text_eq,
}
use tmidb_core.Base.Dict.{lookup}
use tmidb_core.Ipc.{Message, Response, new_response, Connection, Server}
use tmidb_core.Ipc.Stream.{HandlerFunc}
use tmidb_core.Ipc.Table.{write_connection, finish, with_streams}

abbrev pub log_stream : Text
log_stream = bytes "log_stream"

-- What one turn of the loop meets: whether the context is done, the line read (`none`: a timeout or
-- another error), the time, and whether the write of a response fails.
pub record Turn : Type 0 where
  pub done : Bool
  pub line : Option Text
  pub now : ℕ
  pub write_fails : Bool

-- `conn.LastSeen = time.Now()`
unfoldable pub seen : ℕ → Connection → Connection
seen now conn = record conn { last_seen = now }

unfoldable pub write_line : Text → Connection → Connection
write_line line conn = record conn { sent = conn.sent ++ (line ++ bytes "\n") ∷ [] }

unfoldable pub with_connection : ℕ → Connection → Server → Server
with_connection k conn s = record s { connection = write_connection k conn s.connection }

-- `marshal` is encoding/json on a response, `none` its errors.
module _ {D : Type 0} (marshal : Response D → Option Text) where
  unfoldable pub send_response : Bool → ℕ → Response D → Server → Server
  send_response write_fails k response s = elim (marshal response) [
    | none ↦ s
    | some line ↦ if write_fails then s else with_connection k (write_line line (s.connection k)) s
  ]

  -- `none` is a panic of the handler.
  unfoldable pub handle_message :
      List (Text × HandlerFunc D) → Bool → ℕ → Message → Server → Option Server
  handle_message handlers write_fails k msg s = elim (lookup msg.type_ handlers) [
    | none ↦ some (
        send_response write_fails k (new_response msg.id false none (bytes "Unknown message type"))
          s)
    | some handler ↦ elim (handler (s.connection k) msg s.streams) [
      | none ↦ none
      | some h ↦ elim h.response [
        | none ↦ some (with_streams h.streams s)
        | some response ↦ some (send_response write_fails k response (with_streams h.streams s))
      ]
    ]
  ]

-- `unmarshal` is encoding/json on a message.
module _ {D : Type 0} (unmarshal : Text → Option Message) (marshal : Response D → Option Text)
    (handlers : List (Text × HandlerFunc D)) where
  -- One turn of the loop of `handleConnection`: whether the loop goes on. `none` is a panic.
  unfoldable pub turn : Turn → ℕ → Server → Option (Server × Bool)
  turn t k s = if t.done then some (s, false) else elim t.line [
    | none ↦ some (s, false)
    | some line ↦ elim (unmarshal line) [
      | none ↦ some (s, true)
      | some msg ↦
          elim (handle_message marshal handlers t.write_fails k msg
            (with_connection k (seen t.now (s.connection k)) s)) [
              | none ↦ none
              | some s2 ↦ some (s2, text_eq msg.type_ log_stream)
            ]
    ]
  ]

  -- `handleConnection` from its loop on, for at most so many turns; true: it has not ended.
  unfoldable pub serve : ℕ → (ℕ → Turn) → ℕ → Server → Option (Server × Bool)
  serve zero turns k s = some (s, true)
  serve (suc n) turns k s = elim (turn (turns zero) k s) [
    | none ↦ none
    | some (s2, again) ↦ elim again [
      | false ↦ some (finish k s2, false)
      | true ↦ serve n (λ i. turns (suc i)) k s2
    ]
  ]
