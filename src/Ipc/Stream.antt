-- ===== src/Ipc/Stream.antt =====
-- internal/ipc/server.go, internal/supervisor/supervisor.go: the log streams, and the goroutine that
-- tails a log file into one.
use tmidb_core.Base.{
  ℕ, suc, Bool, true, false, List, [], ◌∷◌, ◌++◌, Option, none, some, Text, bytes, length, ltb,
  ◌==◌, if◌then◌else◌, text_eq,
}
use tmidb_core.Base.Dict.{lookup, insert, delete}
use tmidb_core.Ipc.{
  LogEntry, Channel, Streams, Message, string_at, Connection, Response, new_response,
}

abbrev pub buffer_size : ℕ
buffer_size = 1000

-- `make(chan LogEntry, 1000)`
abbrev pub fresh : Channel
fresh = record { buffer = []; closed = false }

abbrev pub write_channel : ℕ → Channel → (ℕ → Channel) → ℕ → Channel
write_channel c ch channels d = if d == c then ch else channels d

-- What `select { case ch <- entry: default: }` makes of an open channel.
unfoldable pub offer : LogEntry → Channel → Channel
offer entry ch =
    if ltb (length ch.buffer) buffer_size
    then record { buffer = ch.buffer ++ entry ∷ []; closed = ch.closed }
    else ch

-- `select { case ch <- entry: default: }`; `none` is the panic of a send on a closed channel.
unfoldable pub send : LogEntry → ℕ → (ℕ → Channel) → Option (ℕ → Channel)
send entry c channels =
    if (channels c).closed then none else some (write_channel c (offer entry (channels c)) channels)

unfoldable pub broadcast : LogEntry → List (Text × ℕ) → (ℕ → Channel) → Option (ℕ → Channel)
broadcast entry [] channels = some channels
broadcast entry ((id, c) ∷ m) channels = elim (send entry c channels) [
  | none ↦ none
  | some channels2 ↦ broadcast entry m channels2
]

abbrev pub with_channels : Streams → Option (ℕ → Channel) → Option Streams
with_channels s none = none
with_channels s (some channels) = some (record s { channel = channels })

unfoldable pub broadcast_log_entry : LogEntry → Streams → Option Streams
broadcast_log_entry entry s = with_channels s (broadcast entry s.log_streams s.channel)

unfoldable pub create_log_stream : Text → Streams → Streams × ℕ
create_log_stream id s = (
  record s {
    log_streams = insert id s.made s.log_streams;
    channel = write_channel s.made fresh s.channel;
    made = suc s.made;
  },
  s.made,
)

-- `close(ch)`; `none` is the panic of a second close.
unfoldable pub close_channel : ℕ → (ℕ → Channel) → Option (ℕ → Channel)
close_channel c channels =
    if (channels c).closed
    then none
    else some (write_channel c (record { buffer = (channels c).buffer; closed = true }) channels)

unfoldable pub remove_log_stream : Text → Streams → Option Streams
remove_log_stream id s = elim (lookup id s.log_streams) [
  | none ↦ some s
  | some c ↦ elim (close_channel c s.channel) [
    | none ↦ none
    | some channels ↦ some (record s { log_streams = delete id s.log_streams; channel = channels })
  ]
]

-- `delete(s.logStreams, connID)`
unfoldable pub forget_stream : Text → Streams → Streams
forget_stream id s = record s { log_streams = delete id s.log_streams }

-- `go s.streamLogsToConnection(component, logChan)`
unfoldable pub start_tail : ℕ → Streams → Streams
start_tail c s = record s { tails = c ∷ s.tails }

-- What the goroutine of `streamLogsToConnection` does with an entry of the log file.
unfoldable pub tail : ℕ → LogEntry → Streams → Option Streams
tail c entry s = with_channels s (send entry c s.channel)

-- What a handler leaves of the streams, and its response, `none` for nil.
pub record Handled (D : Type 0) : Type 0 where
  pub streams : Streams
  pub response : Option (Response D)

-- `HandlerFunc`, as far as it changes the server; `none` is a panic.
abbrev pub HandlerFunc : Type 0 → Type 0
HandlerFunc D = Connection → Message → Streams → Option (Handled D)

module _ {D : Type 0} (status : Text → D) where
  unfoldable pub handled : Streams → Text → Bool → Option D → Text → Handled D
  handled s id success data_ error = record {
    streams = s;
    response = some (new_response id success data_ error);
  }

  -- A missing action is "start".
  unfoldable pub action_of : Message → Text
  action_of msg = elim (string_at (bytes "action") msg) [ none ↦ bytes "start" | some t ↦ t ]

  unfoldable pub start_stream : Connection → Message → Streams → Handled D
  start_stream conn msg s =
      handled (start_tail (create_log_stream conn.id s).1 (create_log_stream conn.id s).0) msg.id
        true (some (status (bytes "streaming"))) []

  unfoldable pub stop_stream : Connection → Message → Streams → Option (Handled D)
  stop_stream conn msg s = elim (remove_log_stream conn.id s) [
    | none ↦ none
    | some s2 ↦ some (handled s2 msg.id true (some (status (bytes "stopped"))) [])
  ]

  unfoldable pub handle_log_stream : HandlerFunc D
  handle_log_stream conn msg s = elim (string_at (bytes "component") msg) [
    | none ↦ some (handled s msg.id false none (bytes "component name required"))
    | some component ↦
        if text_eq (action_of msg) (bytes "start")
        then some (start_stream conn msg s)
        else if text_eq (action_of msg) (bytes "stop")
        then stop_stream conn msg s
        else some (handled s msg.id false none (bytes "invalid action"))
  ]
