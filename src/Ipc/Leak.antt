-- ===== src/Ipc/Leak.antt =====
-- internal/ipc/server.go, internal/supervisor/supervisor.go: the streams under any interleaving, the
-- channels that are never closed, and the send on a closed channel.
use tmidb_core.Base.{
  ℕ, ◌≡◌, refl, ap, subst, ◌∙◌, Bool, true, false, List, Option, none, some, Text, arith,
  Bool-cases, inl, inr,
}
use tmidb_core.Base.Dict.{lookup}
use tmidb_core.Ipc.{Message, Response, LogEntry, Streams, Server}
use tmidb_core.Ipc.Stream.{HandlerFunc, tail, send, broadcast_log_entry, forget_stream}
use tmidb_core.Ipc.Owned.{
  registered, IsOwned, registered-delete, registered-delete_self, registered-lookup,
  forget_stream-IsOwned,
}
use tmidb_core.Ipc.Broadcast.{Sent, broadcast_log_entry_lem, closed-offered, tail-open}
use tmidb_core.Ipc.Behaved.{Abandoned, Keeps, Supervised, Supervised-IsBehaved}
use tmidb_core.Ipc.Table.{
  new_server, accept, refuse, start_goroutine, register, finish, remove_connection,
  cleanup_inactive_connections, stop,
}
use tmidb_core.Ipc.Serve.{Turn, turn}
use tmidb_core.Ipc.Effect.{Source, untouched, by_handler, turn-Effect}
use tmidb_core.Ipc.Trace.{
  Step, Reach, here, next, accepting, registering, turning, finishing, cleaning, broadcasting,
  tailing, stopping,
}

same-Keeps : {s t : Streams} → IsOwned s → t ≡ s → Keeps s t
same-Keeps o e = rw e (record { owned = o; abandoned = λ c a. a })

forget_stream-Keeps : (id : Text) (s : Streams) → IsOwned s → Keeps s (forget_stream id s)
unfolding forget_stream
forget_stream-Keeps id s o = record {
  owned = forget_stream-IsOwned id s o;
  abandoned = λ c a. record {
    opened = a.opened;
    free = ground (arith, registered-delete c id s.log_streams, a.free);
    old = a.old;
  };
}

-- Sends keep the streams in order.
still-Keeps :
    {s t : Streams}
    → IsOwned s
    → t.log_streams ≡ s.log_streams
    → t.made ≡ s.made
    → ((c : ℕ) → (t.channel c).closed ≡ (s.channel c).closed)
    → Keeps s t
still-Keeps {s = s} {t = t} o table made closed = record {
  owned = record {
    distinct = rw table o.distinct;
    single = rw table o.single;
    opened = λ c r. rw (closed c) (o.opened c (rw table at r));
    known = λ c r. rw made (o.known c (rw table at r));
  };
  abandoned = λ c a. record {
    opened = rw (closed c) a.opened;
    free = rw table a.free;
    old = rw made a.old;
  };
}

pub broadcast_log_entry-Keeps :
    (entry : LogEntry) (s r : Streams)
    → IsOwned s
    → broadcast_log_entry entry s ≡ some r
    → Keeps s r
broadcast_log_entry-Keeps entry s r o e =
    let sent = broadcast_log_entry_lem entry s o in
    let is : sent.0 ≡ r = cc in
    let same = sent.2 in
    subst (Keeps s) is (
      still-Keeps o same.table same.made (λ c.
        ap (λ x. x.closed) (same.channels c) ∙ closed-offered entry s.log_streams s.channel c))

pub tail-closed :
    (c : ℕ) (entry : LogEntry) (s : Streams) → (s.channel c).closed ≡ true → tail c entry s ≡ none
unfolding tail send
tail-closed c entry s h = rw h refl

tail-Keeps :
    (c : ℕ) (entry : LogEntry) (s r : Streams) → IsOwned s → tail c entry s ≡ some r → Keeps s r
tail-Keeps c entry s r o e = elim (Bool-cases (s.channel c).closed) [
  | inl h ↦ absurd (let no = tail-closed c entry s h in cc)
  | inr h ↦
      let sent = tail-open c entry s h in
      let is : sent.0 ≡ r = cc in subst (Keeps s) is (still-Keeps o sent.2 sent.3 sent.4)
]

accept-streams : (s : Server) → (accept s).streams ≡ s.streams
unfolding accept refuse start_goroutine
accept-streams s = ground arith

module _ {D : Type 0} (status : Text → D) (unmarshal : Text → Option Message)
    (marshal : Response D → Option Text) (handlers : List (Text × HandlerFunc D)) (delay : ℕ) where
  Source-Keeps :
      Supervised status handlers → {s r : Streams} → IsOwned s → Source handlers s r → Keeps s r
  Source-Keeps all o (untouched e) = same-Keeps o e
  Source-Keeps all {s = s} {r = r} o (by_handler conn msg handler h found runs e) =
      rw e (Supervised-IsBehaved status handlers all msg.type_ handler found conn msg s h o runs)

  Keeps-trans : {s t r : Streams} → Keeps s t → Keeps t r → Keeps s r
  Keeps-trans k l = record { owned = l.owned; abandoned = λ c a. l.abandoned c (k.abandoned c a) }

  turn-Keeps :
      Supervised status handlers
      → (t : Turn) (k : ℕ) (s r : Server) (again : Bool) → IsOwned s.streams
      → turn unmarshal marshal handlers t k s ≡ some (r, again)
      → Keeps s.streams r.streams
  turn-Keeps all t k s r again o e =
      Source-Keeps all o (turn-Effect unmarshal marshal handlers t k s r again e).source

  Step-Keeps :
      Supervised status handlers
      → {s t : Server} → IsOwned s.streams
      → Step unmarshal marshal handlers delay s t
      → Keeps s.streams t.streams
  unfolding register finish remove_connection cleanup_inactive_connections stop
  Step-Keeps all {s = s} o (accepting up few) = same-Keeps o (accept-streams s)
  Step-Keeps all o (registering k id now there) = same-Keeps o refl
  Step-Keeps all {s = s} o (turning k t {r = r} there e) = turn-Keeps all t k s r true o e
  Step-Keeps all {s = s} o (finishing k t {r = r} there e) =
      let kept = turn-Keeps all t k s r false o e in
      Keeps-trans kept (forget_stream-Keeps (r.connection k).id r.streams kept.owned)
  Step-Keeps all o (cleaning now) = same-Keeps o refl
  Step-Keeps all {s = s} o (broadcasting entry {r = r} e) =
      broadcast_log_entry-Keeps entry s.streams r o e
  Step-Keeps all {s = s} o (tailing c entry {r = r} there e) = tail-Keeps c entry s.streams r o e
  Step-Keeps all o stopping = same-Keeps o refl

  Reach-Keeps :
      Supervised status handlers
      → {s t : Server} → IsOwned s.streams
      → Reach unmarshal marshal handlers delay s t
      → Keeps s.streams t.streams
  Reach-Keeps all o here = same-Keeps o refl
  Reach-Keeps all o (next r step) =
      let kept = Reach-Keeps all o r in Keeps-trans kept (Step-Keeps all kept.owned step)

  new-IsOwned : IsOwned new_server.streams
  unfolding new_server registered
  new-IsOwned = record { distinct = tt; single = tt; opened = λ c. cc; known = λ c. cc }

  -- With a table of handlers in which only that of the log streams touches the streams, and any other
  -- may panic or never return: whatever the goroutines of a new server have done, and in whatever
  -- order, as long as none has panicked, a broadcast does not panic. It puts the entry at the end of
  -- each registered channel that has room and changes nothing else.
  pub Reach-broadcasts :
      {s : Server}
      → Supervised status handlers
      → Reach unmarshal marshal handlers delay new_server s
      → (entry : LogEntry)
      → (t : Streams) × (broadcast_log_entry entry s.streams ≡ some t) × Sent entry s.streams t
  Reach-broadcasts {s = s} all r entry =
      broadcast_log_entry_lem entry s.streams (Reach-Keeps all new-IsOwned r).owned

  finish-Abandoned :
      (k c : ℕ) (s : Server)
      → IsOwned s.streams
      → lookup (s.connection k).id s.streams.log_streams ≡ some c
      → Abandoned c (finish k s).streams
  unfolding finish remove_connection forget_stream
  finish-Abandoned k c s o h =
      let there = registered-lookup (s.connection k).id c s.streams.log_streams h in
      record {
        opened = o.opened c there;
        free =
            registered-delete_self c (s.connection k).id s.streams.log_streams o.distinct o.single
              h;
        old = o.known c there;
      }

  -- With the streams in order, and a table of handlers in which only that of the log streams touches
  -- them: once the connection of a log stream has ended, no later step of any goroutine closes the
  -- stream's channel, and it stands under no connection, so no broadcast reaches it.
  pub finish_leaks :
      {t : Server}
      → Supervised status handlers
      → (k c : ℕ) (s : Server) → IsOwned s.streams
      → lookup (s.connection k).id s.streams.log_streams ≡ some c
      → Reach unmarshal marshal handlers delay (finish k s) t
      → ((t.streams.channel c).closed ≡ false) × (registered c t.streams.log_streams ≡ false)
  unfolding finish remove_connection
  finish_leaks {t = t} all k c s o h r =
      let owned = forget_stream-IsOwned (s.connection k).id s.streams o in
      let kept = (Reach-Keeps all owned r).abandoned c (finish-Abandoned k c s o h) in
      (kept.opened, kept.free)
