-- ===== src/Ipc/Panic.antt =====
-- internal/supervisor/supervisor.go, internal/ipc/server.go: a stream that is stopped while its
-- goroutine tails a file.
use tmidb_core.Base.{
  ◌≡◌, refl, ap, ◌∙◌, true, [], ◌∷◌, none, some, Text, bytes, text_eq, text_eq_refl,
}
use tmidb_core.Base.Dict.{lookup, lookup-insert}
use tmidb_core.Ipc.{Message, string_at, LogEntry, Streams, Connection}
use tmidb_core.Ipc.Stream.{
  Handled, tail, handle_log_stream, action_of, start_stream, stop_stream, start_tail, handled,
  create_log_stream, remove_log_stream,
}
use tmidb_core.Ipc.Owned.{IsOwned, close_there}
use tmidb_core.Ipc.Leak.{tail-closed}
use tmidb_core.Ipc.Behaved.{start_stream-Keeps}

module _ {D : Type 0} (status : Text → D) where
  start_stream-lookup :
      (conn : Connection) (msg : Message) (s : Streams)
      → lookup conn.id (start_stream status conn msg s).streams.log_streams ≡ some s.made
  unfolding start_stream handled start_tail create_log_stream
  start_stream-lookup conn msg s =
      rw (lookup-insert conn.id conn.id s.made s.log_streams) (rw (text_eq_refl conn.id) refl)

  start_stream-tails :
      (conn : Connection) (msg : Message) (s : Streams)
      → (start_stream status conn msg s).streams.tails ≡ s.made ∷ s.tails
  unfolding start_stream handled start_tail create_log_stream
  start_stream-tails conn msg s = refl

  stop_stream-runs :
      (conn : Connection) (msg : Message) (s t : Streams)
      → remove_log_stream conn.id s ≡ some t
      → stop_stream status conn msg s
        ≡ some (handled status t msg.id true (some (status (bytes "stopped"))) [])
  unfolding stop_stream
  stop_stream-runs conn msg s t e = rw (e, stop_stream) refl

  -- A request with this action is handled as a start or as a stop.
  pub record Asks (action : Text) (msg : Message) : Type 0 where
    pub component : Text
    pub named : string_at (bytes "component") msg ≡ some component
    pub acts : action_of status msg ≡ action

  handle-start :
      (conn : Connection) (msg : Message) (s : Streams)
      → Asks (bytes "start") msg
      → handle_log_stream status conn msg s ≡ some (start_stream status conn msg s)
  unfolding handle_log_stream text_eq
  handle-start conn msg s a = rw (a.named, handle_log_stream) (rw (a.acts) refl)

  handle-stop :
      (conn : Connection) (msg : Message) (s : Streams)
      → Asks (bytes "stop") msg
      → handle_log_stream status conn msg s ≡ stop_stream status conn msg s
  unfolding handle_log_stream text_eq
  handle-stop conn msg s a = rw (a.named, handle_log_stream) (rw (a.acts) refl)

  -- With the streams in order: after one connection has started a log stream and then stopped it,
  -- both with success, the next line of the log file makes the goroutine that tails it send on a
  -- closed channel, which panics.
  pub stop_stream_panics :
      (conn : Connection) (first second : Message) (entry : LogEntry) (s : Streams)
      → IsOwned s
      → Asks (bytes "start") first
      → Asks (bytes "stop") second
      → (t : Handled D) × (handle_log_stream status conn second
            (start_stream status conn first s).streams
          ≡ some t)
        × (handle_log_stream status conn first s ≡ some (start_stream status conn first s))
        × (t.streams.tails ≡ s.made ∷ s.tails)
        × (tail s.made entry t.streams ≡ none)
  unfolding handled
  stop_stream_panics conn first second entry s o a b =
      let s1 = (start_stream status conn first s).streams in
      let owned = (start_stream-Keeps status conn first s o).owned in
      let stopped = close_there conn.id s.made s1 owned (start_stream-lookup conn first s) in
      (
        handled status stopped.0 second.id true (some (status (bytes "stopped"))) [],
        handle-stop conn second s1 b ∙ stop_stream-runs conn second s1 stopped.0 stopped.1,
        handle-start conn first s a,
        stopped.2.tails ∙ start_stream-tails conn first s,
        tail-closed s.made entry stopped.0 (ap (λ ch. ch.closed) stopped.2.closed),
      )
