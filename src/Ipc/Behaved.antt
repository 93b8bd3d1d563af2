-- ===== src/Ipc/Behaved.antt =====
-- internal/ipc/server.go, internal/supervisor/supervisor.go: what a handler keeps of the streams, and
-- that the handler of log streams keeps it.
use tmidb_core.Base.{
  ℕ, ◌<◌, ◌≡◌, ◌≢◌, refl, true, false, [], none, some, Text, bytes, arith, text_eq, text_eq_iff,
  Bool-cases, Option-cases, inl, inr, List, subst,
}
use tmidb_core.Base.Dict.{lookup}
use tmidb_core.Ipc.{Streams, Message, string_at, Connection}
use tmidb_core.Ipc.Stream.{
  Handled, HandlerFunc, action_of, start_stream, stop_stream, handle_log_stream, create_log_stream,
  remove_log_stream, start_tail, handled,
}
use tmidb_core.Ipc.Serve.{log_stream}
use tmidb_core.Ipc.Owned.{
  registered, IsOwned, Closed, create_log_stream-IsOwned, remove_log_stream_lem, registered-insert,
  registered-delete, registered-lookup,
}

-- A channel that is open, stands under no connection, and so is never closed.
pub record Abandoned (c : ℕ) (s : Streams) : Type 0 where
  pub opened : (s.channel c).closed ≡ false
  pub free : registered c s.log_streams ≡ false
  pub old : c < s.made

-- What a handler may do with the streams: it keeps them in order and closes no channel but one
-- that is registered.
pub record Keeps (s t : Streams) : Type 0 where
  pub owned : IsOwned t
  pub abandoned : (c : ℕ) → Abandoned c s → Abandoned c t

-- Where a handler returns, it keeps the streams; it may panic, or never return.
abbrev pub IsBehaved : {D : Type 0} → HandlerFunc D → Type 0
IsBehaved {D = D} handler =
    (conn : Connection) (msg : Message) (s : Streams) (h : Handled D)
    → IsOwned s
    → handler conn msg s ≡ some h
    → Keeps s h.streams

-- A handler that returns on streams that are in order, and keeps them.
abbrev pub Returning : {D : Type 0} → HandlerFunc D → Type 0
Returning {D = D} handler =
    (conn : Connection) (msg : Message) (s : Streams)
    → IsOwned s
    → (h : Handled D) × (handler conn msg s ≡ some h) × Keeps s h.streams

create_log_stream-Keeps : (id : Text) (s : Streams) → IsOwned s → Keeps s (create_log_stream id s).0
unfolding create_log_stream
create_log_stream-Keeps id s o = record {
  owned = create_log_stream-IsOwned id s o;
  abandoned = λ c a. record {
    opened = ground (arith, a.opened, a.old);
    free = ground (arith, registered-insert c s.made id s.log_streams, a.free, a.old);
    old = omega (arith, a.old);
  };
}

Closed-Keeps :
    (id : Text) (c : ℕ) (s t : Streams)
    → registered c s.log_streams ≡ true
    → Closed id c s t
    → Keeps s t
Closed-Keeps id c s t r closed = record {
  owned = closed.owned;
  abandoned = λ d a.
      let apart : d ≢ c = λ e. ground (arith, a.free, r) in
      record {
        opened = rw (closed.others d apart) a.opened;
        free = rw (closed.table) ground (arith, a.free, registered-delete d id s.log_streams);
        old = rw (closed.made) a.old;
      };
}

same-Keeps : (s t : Streams) → IsOwned s → t ≡ s → Keeps s t
same-Keeps s t o e = rw e (record { owned = o; abandoned = λ d a. a })

remove_log_stream-Keeps :
    (id : Text) (s : Streams)
    → IsOwned s
    → (t : Streams) × (remove_log_stream id s ≡ some t) × Keeps s t
remove_log_stream-Keeps id s o =
    let removed = remove_log_stream_lem id s o in
    (
      removed.0,
      removed.1,
      elim (Option-cases (lookup id s.log_streams)) [
        | inl e ↦ same-Keeps s removed.0 o (rw e at removed.2)
        | inr (c, e) ↦
            Closed-Keeps id c s removed.0 (registered-lookup id c s.log_streams e)
              (rw e at removed.2)
      ],
    )

pub start_stream-Keeps :
    {D : Type 0} (status : Text → D) (conn : Connection) (msg : Message) (s : Streams)
    → IsOwned s
    → Keeps s (start_stream status conn msg s).streams
unfolding start_stream handled start_tail
start_stream-Keeps status conn msg s o =
    let kept = create_log_stream-Keeps conn.id s o in
    record {
      owned = record {
        distinct = kept.owned.distinct;
        single = kept.owned.single;
        opened = kept.owned.opened;
        known = kept.owned.known;
      };
      abandoned = λ c a.
          let b = kept.abandoned c a in record { opened = b.opened; free = b.free; old = b.old };
    }

stop_stream-Returning : {D : Type 0} (status : Text → D) → Returning (stop_stream status)
unfolding stop_stream handled
stop_stream-Returning status conn msg s o =
    let removed = remove_log_stream-Keeps conn.id s o in
    (
      handled status removed.0 msg.id true (some (status (bytes "stopped"))) [],
      rw (removed.1, stop_stream) refl,
      removed.2,
    )

-- The handler of log streams never panics, and closes no channel but the connection's own.
pub handle_log_stream-Returning :
    {D : Type 0} (status : Text → D) → Returning (handle_log_stream status)
unfolding handle_log_stream handled
handle_log_stream-Returning status conn msg s o =
    elim (Option-cases (string_at (bytes "component") msg)) [
      | inl e ↦ (
        handled status s msg.id false none (bytes "component name required"),
        rw (e, handle_log_stream) refl,
        same-Keeps s s o refl,
      )
      | inr (component, e) ↦ elim (Bool-cases (text_eq (action_of status msg) (bytes "start"))) [
        | inl starts ↦ (
          start_stream status conn msg s,
          rw (e, handle_log_stream) (rw starts refl),
          start_stream-Keeps status conn msg s o,
        )
        | inr other ↦ elim (Bool-cases (text_eq (action_of status msg) (bytes "stop"))) [
          | inl stops ↦
              let stopped = stop_stream-Returning status conn msg s o in
              (stopped.0, rw (e, handle_log_stream) (rw other (rw stops (stopped.1))), stopped.2)
          | inr neither ↦ (
            handled status s msg.id false none (bytes "invalid action"),
            rw (e, handle_log_stream) (rw other (rw neither refl)),
            same-Keeps s s o refl,
          )
        ]
      ]
    ]

module _ {D : Type 0} where
  pub Returning-IsBehaved : (handler : HandlerFunc D) → Returning handler → IsBehaved handler
  Returning-IsBehaved handler returns conn msg s h o e =
      let done = returns conn msg s o in
      let is : done.0 ≡ h = cc in subst (λ x. Keeps s x.streams) is done.2

  -- A handler that, where it returns, has left the streams alone. It need not return: it may panic.
  abbrev pub IsQuiet : HandlerFunc D → Type 0
  IsQuiet handler =
      (conn : Connection) (msg : Message) (s : Streams) (h : Handled D)
      → handler conn msg s ≡ some h
      → h.streams ≡ s

  -- How the supervisor registers its handlers: that of the log streams under its own type, and under
  -- the other types handlers that do not touch the streams, whether they return or not.
  pub record Supervised (status : Text → D) (handlers : List (Text × HandlerFunc D)) : Type 0 where
    pub streams : lookup log_stream handlers ≡ some (handle_log_stream status)
    pub others :
        (type_ : Text) (handler : HandlerFunc D)
        → text_eq type_ log_stream ≡ false
        → lookup type_ handlers ≡ some handler
        → IsQuiet handler

  IsQuiet-IsBehaved : (handler : HandlerFunc D) → IsQuiet handler → IsBehaved handler
  IsQuiet-IsBehaved handler quiet conn msg s h o e = same-Keeps s h.streams o (quiet conn msg s h e)

  Supervised-log_stream :
      (status : Text → D) (handlers : List (Text × HandlerFunc D))
      → Supervised status handlers
      → (type_ : Text) (handler : HandlerFunc D) → text_eq type_ log_stream ≡ true
      → lookup type_ handlers ≡ some handler
      → handle_log_stream status ≡ handler
  Supervised-log_stream status handlers all type_ handler e h =
      let is : type_ ≡ log_stream = (text_eq_iff type_ log_stream).0 e in
      let one : lookup log_stream handlers ≡ some handler = rw is at h in
      let both = all.streams in cc

  pub Supervised-IsBehaved :
      (status : Text → D) (handlers : List (Text × HandlerFunc D))
      → Supervised status handlers
      → (type_ : Text) (handler : HandlerFunc D) → lookup type_ handlers ≡ some handler
      → IsBehaved handler
  Supervised-IsBehaved status handlers all type_ handler h =
      elim (Bool-cases (text_eq type_ log_stream)) [
        | inl e ↦
            subst IsBehaved (Supervised-log_stream status handlers all type_ handler e h)
              (Returning-IsBehaved (handle_log_stream status) (handle_log_stream-Returning status))
        | inr e ↦ IsQuiet-IsBehaved handler (all.others type_ handler e h)
      ]

  -- The handler of a message, if there is one, returns.
  abbrev pub Answers : List (Text × HandlerFunc D) → Message → Type 0
  Answers handlers msg =
      (handler : HandlerFunc D)
      → lookup msg.type_ handlers ≡ some handler
      → (conn : Connection) (s : Streams) → IsOwned s
      → (h : Handled D) × (handler conn msg s ≡ some h)

  -- A request for a stream always has an answer.
  pub Supervised-Answers :
      (status : Text → D) (handlers : List (Text × HandlerFunc D))
      → Supervised status handlers
      → (msg : Message) → text_eq msg.type_ log_stream ≡ true
      → Answers handlers msg
  Supervised-Answers status handlers all msg e handler h conn s o =
      subst (λ f. (r : Handled D) × (f conn msg s ≡ some r))
        (Supervised-log_stream status handlers all msg.type_ handler e h)
        (let done = handle_log_stream-Returning status conn msg s o in (done.0, done.1))
