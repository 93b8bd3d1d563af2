-- ===== src/Ipc/Tests.antt =====
-- internal/ipc/server.go, internal/supervisor/supervisor.go: clients, streams and runs on which the
-- theorems are run.
use tmidb_core.Base.{
  ℕ, zero, suc, ◌+◌, ◌<◌, ◌≤◌, ◌≡◌, refl, false, List, [], ◌∷◌, ◌++◌, Option, none, some, Text,
  bytes, length, take, arith, if◌then◌else◌, text_eq, text_eq_iff, subst, Bool-cases, inl, inr,
}
use Prim.Native.String.{String}
use tmidb_core.Base.Dict.{lookup, insert}
use tmidb_core.Ipc.{
  string, Message, string_at, number_at, Response, LogEntry, Streams, Connection, Server,
}
use tmidb_core.Ipc.Stream.{
  buffer_size, Handled, HandlerFunc, action_of, start_stream, handle_log_stream, create_log_stream,
  tail, broadcast_log_entry,
}
use tmidb_core.Ipc.Owned.{registered, IsOwned, create_log_stream-IsOwned}
use tmidb_core.Ipc.Broadcast.{Sent}
use mathlib.Core.Option
use tmidb_core.Supervisor.Recent.{absent, handle_get_logs}
use tmidb_core.Ipc.Behaved.{IsQuiet, Supervised}
use tmidb_core.Ipc.Table.{
  max_connections, new_streams, new_server, accept, start_goroutine, register, finish, with_streams,
}
use tmidb_core.Ipc.Serve.{log_stream, Turn, serve}
use tmidb_core.Ipc.Request.{Skips, handling, serve_one_request}
use tmidb_core.Ipc.Trace.{among, Reach, here, next, accepting, registering}
use tmidb_core.Ipc.Limit.{Reach-load}
use tmidb_core.Ipc.Flood.{exceeds_limit}
use tmidb_core.Ipc.Leak.{Reach-broadcasts, finish_leaks}
use tmidb_core.Ipc.Panic.{Asks, stop_stream_panics}
use tmidb_core.Ipc.Order.{broadcast_all, broadcast_all_lem}

-- What the data of a response is.
data Answer : Type 0 where
  said : Text → Answer
  logs : List LogEntry → Answer

abbrev id : Text
id = bytes "c1"

abbrev ask : String → String → Message
ask type_ action = record {
  id = bytes "m";
  type_ = bytes type_;
  data_ = (bytes "component", string (bytes "api")) ∷ (bytes "action", string (bytes action)) ∷ [];
}

abbrev start_message : Message
start_message = ask "log_stream" "start"

abbrev stop_message : Message
stop_message = ask "log_stream" "stop"

abbrev ping : Message
ping = ask "ping" "start"

-- "s" asks for a stream, "p" for something that no handler knows.
unfoldable unmarshal : Text → Option Message
unmarshal line =
    if text_eq line (bytes "s")
    then some start_message
    else if text_eq line (bytes "p")
    then some ping
    else none

unfoldable marshal : Response Answer → Option Text
marshal r = some r.error

abbrev status : Text → Answer
status = said

-- The handlers of the log streams and of the logs. The latter panics on a negative number of lines.
unfoldable get_logs : HandlerFunc Answer
get_logs conn msg s =
    elim (handle_get_logs (λ t. none) (λ less es. es) (λ i. []) (λ path. absent) (bytes "logs")
      msg.id (string_at (bytes "component") msg) (number_at (bytes "lines") msg)) [
        | none ↦ none
        | some r ↦ some (record {
          streams = s;
          response = some (record {
            id = r.id;
            success = r.success;
            data_ = Option.map logs r.data_;
            error = r.error;
          });
        })
      ]

abbrev handlers : List (Text × HandlerFunc Answer)
handlers = (log_stream, handle_log_stream status) ∷ (bytes "get_logs", get_logs) ∷ []

get_logs-IsQuiet : IsQuiet get_logs
unfolding get_logs
get_logs-IsQuiet conn msg s h e = ground arith

handlers-Supervised : Supervised status handlers
unfolding lookup text_eq
handlers-Supervised = record {
  streams = refl;
  others = λ type_ handler other h. elim (Bool-cases (text_eq (bytes "get_logs") type_)) [
    | inl e ↦
        let found : get_logs ≡ handler =
          ground (arith, h, e, other, text_eq_iff log_stream type_, text_eq_iff type_ log_stream) in
        subst IsQuiet found get_logs-IsQuiet
    | inr e ↦
        absurd
          (ground (arith, h, e, other, text_eq_iff log_stream type_, text_eq_iff type_ log_stream))
  ];
}

abbrev sends : Option Text → Turn
sends line = record { done = false; line = line; now = 5; write_fails = false }

-- A client that asks for a stream, sends a line that is no message, and goes.
abbrev streaming : ℕ → Turn
streaming zero = sends (some (bytes "s"))
streaming (suc zero) = sends (some (bytes "?"))
streaming (suc (suc n)) = sends none

abbrev registered_one : Server
registered_one = register 0 id 3 (accept new_server)

new_streams-IsOwned : IsOwned new_streams
unfolding registered
new_streams-IsOwned = record { distinct = tt; single = tt; opened = λ c. cc; known = λ c. cc }

-- A client that sends a line that is no message, and then two requests.
abbrev asking : ℕ → Turn
asking zero = sends (some (bytes "?"))
asking (suc n) = sends (some (bytes "p"))

asking-Skips : (i : ℕ) → i < 1 → Skips unmarshal marshal handlers (asking i)
unfolding unmarshal text_eq
asking-Skips zero lt = record { running = refl; line = bytes "?"; read = refl; refused = refl }
asking-Skips (suc i) lt = absurd (omega arith)

serve_one_request_example :
    serve unmarshal marshal handlers 9 asking 0 registered_one
    ≡ (elim (handling unmarshal marshal handlers (asking 1) 0 ping registered_one) [
      | none ↦ none
      | some t ↦ some (finish 0 t, false)
    ])
unfolding unmarshal text_eq
serve_one_request_example =
    serve_one_request unmarshal marshal handlers 1 9 asking 0 ping registered_one asking-Skips
      (record { running = refl; line = bytes "p"; read = refl; parsed = refl }) refl (omega arith)

-- A run in which one connection is accepted and registers.
run : Reach unmarshal marshal handlers 0 new_server registered_one
unfolding new_server accept start_goroutine among
run = next (next here (accepting refl (omega arith))) (registering 0 id 3 refl)

Reach-load_example :
    length registered_one.connections + length registered_one.accepted ≤ max_connections + 0
Reach-load_example = Reach-load unmarshal marshal handlers 0 run

exceeds_limit_example :
    (t : Server) × Reach unmarshal marshal handlers 150 new_server t × (length t.connections ≡ 151)
exceeds_limit_example = exceeds_limit unmarshal marshal handlers 150

abbrev entry : LogEntry
entry = record { process = bytes "api"; level = bytes "info"; message = bytes "up"; timestamp = 1 }

Reach-broadcasts_example :
    (t : Streams) × (broadcast_log_entry entry registered_one.streams ≡ some t)
    × Sent entry registered_one.streams t
Reach-broadcasts_example =
    Reach-broadcasts status unmarshal marshal handlers 0 handlers-Supervised run entry

abbrev one_stream : Streams
one_stream = (create_log_stream id new_streams).0

one_stream-IsOwned : IsOwned one_stream
one_stream-IsOwned = create_log_stream-IsOwned id new_streams new_streams-IsOwned

abbrev streaming_server : Server
streaming_server = with_streams one_stream registered_one

finish_leaks_example :
    ((finish 0 streaming_server).streams.channel 0).closed ≡ false
    × (registered 0 (finish 0 streaming_server).streams.log_streams ≡ false)
unfolding create_log_stream register accept new_server start_goroutine lookup insert text_eq
finish_leaks_example =
    finish_leaks status unmarshal marshal handlers 0 handlers-Supervised 0 0 streaming_server
      one_stream-IsOwned refl here

abbrev connection : Connection
connection = record { id = id; last_seen = 3; sent = []; closed = false }

start_Asks : Asks status (bytes "start") start_message
unfolding string_at lookup action_of text_eq
start_Asks = record { component = bytes "api"; named = refl; acts = refl }

stop_Asks : Asks status (bytes "stop") stop_message
unfolding string_at lookup action_of text_eq
stop_Asks = record { component = bytes "api"; named = refl; acts = refl }

stop_stream_panics_example :
    let s = (start_stream status connection start_message new_streams).streams in
    (t : Handled Answer) × (handle_log_stream status connection stop_message s ≡ some t)
    × (handle_log_stream status connection start_message new_streams
        ≡ some (start_stream status connection start_message new_streams))
    × (t.streams.tails ≡ 0 ∷ [])
    × (tail 0 entry t.streams ≡ none)
stop_stream_panics_example =
    stop_stream_panics status connection start_message stop_message entry new_streams
      new_streams-IsOwned start_Asks stop_Asks

broadcast_all_lem_example :
    (t : Streams) × (broadcast_all (entry ∷ entry ∷ []) one_stream ≡ some t)
    × ((t.channel 0).buffer
        ≡ take buffer_size ((one_stream.channel 0).buffer ++ entry ∷ entry ∷ []))
unfolding create_log_stream registered insert
broadcast_all_lem_example =
    broadcast_all_lem (entry ∷ entry ∷ []) 0 one_stream one_stream-IsOwned refl (omega arith)
