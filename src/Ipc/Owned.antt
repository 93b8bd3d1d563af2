-- ===== src/Ipc/Owned.antt =====
-- internal/ipc/server.go: each registered channel stands under one connection, and is open.
use tmidb_core.Base.{
  ℕ, ◌≤◌, ◌<◌, ◌≡◌, ◌≢◌, refl, Bool, true, false, List, [], ◌∷◌, Option, none, some, Text, ◌==◌,
  ◌||◌, arith, text_eq_iff, Bool-cases, Option-cases, inl, inr,
}
use tmidb_core.Base.Dict.{lookup, insert, delete, Distinct, insert-Distinct, delete-Distinct}
use tmidb_core.Ipc.{LogEntry, Channel, Streams}
use tmidb_core.Ipc.Stream.{
  offer, create_log_stream, close_channel, remove_log_stream, forget_stream, write_channel,
  write_channel,
}

-- Whether a channel stands in the table.
unfoldable pub registered : ℕ → List (Text × ℕ) → Bool
registered c [] = false
registered c ((id, d) ∷ m) = (d == c) || registered c m

-- No channel stands under two connections.
abbrev pub Single : List (Text × ℕ) → Type 0
Single [] = Unit
Single ((id, d) ∷ m) = (registered d m ≡ false) × Single m

pub record IsOwned (s : Streams) : Type 0 where
  pub distinct : Distinct s.log_streams
  pub single : Single s.log_streams
  pub opened : (c : ℕ) → registered c s.log_streams ≡ true → (s.channel c).closed ≡ false
  pub known : (c : ℕ) → registered c s.log_streams ≡ true → c < s.made

pub registered-lookup :
    (id : Text) (c : ℕ) (m : List (Text × ℕ)) → lookup id m ≡ some c → registered c m ≡ true
unfolding lookup registered
registered-lookup id c [] h = ground arith
registered-lookup id c ((i, d) ∷ m) h = ground (arith, registered-lookup id c m)

pub registered-insert :
    (c d : ℕ) (id : Text) (m : List (Text × ℕ))
    → registered c (insert id d m) ≡ true
    → ((d == c) || registered c m) ≡ true
unfolding insert registered
registered-insert c d id [] h = h
registered-insert c d id ((i, e) ∷ m) h = ground (arith, registered-insert c d id m)

pub registered-delete :
    (c : ℕ) (id : Text) (m : List (Text × ℕ))
    → registered c (delete id m) ≡ true
    → registered c m ≡ true
unfolding delete registered
registered-delete c id [] h = h
registered-delete c id ((i, e) ∷ m) h = ground (arith, registered-delete c id m)

Single-insert :
    (d : ℕ) (id : Text) (m : List (Text × ℕ))
    → registered d m ≡ false
    → Single m
    → Single (insert id d m)
unfolding insert registered
Single-insert d id [] h all = (refl, tt)
Single-insert d id ((i, e) ∷ m) h all =
    ground (arith, registered-insert e d id m, Single-insert d id m)

Single-delete : (id : Text) (m : List (Text × ℕ)) → Single m → Single (delete id m)
unfolding delete registered
Single-delete id [] all = tt
Single-delete id ((i, e) ∷ m) all = ground (arith, registered-delete e id m, Single-delete id m)

-- A deleted entry's channel is no longer registered.
pub registered-delete_self :
    (c : ℕ) (id : Text) (m : List (Text × ℕ))
    → Distinct m
    → Single m
    → lookup id m ≡ some c
    → registered c (delete id m) ≡ false
unfolding delete registered lookup
registered-delete_self c id [] d all h = refl
registered-delete_self c id ((i, e) ∷ m) d all h = ground (
  arith,
  registered-delete_self c id m,
  registered-delete c id m,
  registered-lookup id c m,
  text_eq_iff i id,
)

closed-offer : (entry : LogEntry) (ch : Channel) → (offer entry ch).closed ≡ ch.closed
unfolding offer
closed-offer entry ch = ground arith

-- A channel that is not made yet is not registered.
unregistered : {s : Streams} → IsOwned s → (c : ℕ) → s.made ≤ c → registered c s.log_streams ≡ false
unregistered {s = s} o c late = elim (Bool-cases (registered c s.log_streams)) [
  | inl e ↦ absurd (omega (arith, o.known c e))
  | inr e ↦ e
]

pub create_log_stream-IsOwned :
    (id : Text) (s : Streams) → IsOwned s → IsOwned (create_log_stream id s).0
unfolding create_log_stream
create_log_stream-IsOwned id s o = record {
  distinct = insert-Distinct id s.made s.log_streams o.distinct;
  single = Single-insert s.made id s.log_streams (unregistered o s.made (omega arith)) o.single;
  opened = λ c r. ground (arith, registered-insert c s.made id s.log_streams, o.opened c);
  known = λ c r. ground (arith, registered-insert c s.made id s.log_streams, o.known c);
}

pub forget_stream-IsOwned : (id : Text) (s : Streams) → IsOwned s → IsOwned (forget_stream id s)
unfolding forget_stream
forget_stream-IsOwned id s o = record {
  distinct = delete-Distinct id s.log_streams o.distinct;
  single = Single-delete id s.log_streams o.single;
  opened = λ c r. o.opened c (registered-delete c id s.log_streams r);
  known = λ c r. o.known c (registered-delete c id s.log_streams r);
}

-- Closing the stream of a connection: the streams with its entry gone and its channel closed.
pub record Closed (id : Text) (c : ℕ) (s t : Streams) : Type 0 where
  pub table : t.log_streams ≡ delete id s.log_streams
  pub closed : t.channel c ≡ record { buffer = (s.channel c).buffer; closed = true }
  pub made : t.made ≡ s.made
  pub tails : t.tails ≡ s.tails
  pub others : (d : ℕ) → d ≢ c → t.channel d ≡ s.channel d
  pub gone : registered c t.log_streams ≡ false
  pub owned : IsOwned t

close_channel-open :
    (c : ℕ) (channels : ℕ → Channel)
    → (channels c).closed ≡ false
    → close_channel c channels
      ≡ some (write_channel c (record { buffer = (channels c).buffer; closed = true }) channels)
unfolding close_channel
close_channel-open c channels h = rw h refl

pub close_there :
    (id : Text) (c : ℕ) (s : Streams)
    → IsOwned s
    → lookup id s.log_streams ≡ some c
    → (t : Streams) × (remove_log_stream id s ≡ some t) × Closed id c s t
unfolding remove_log_stream
close_there id c s o h =
    let there = registered-lookup id c s.log_streams h in
    let open_ = o.opened c there in
    let gone = registered-delete_self c id s.log_streams o.distinct o.single h in
    (
      record s {
        log_streams = delete id s.log_streams;
        channel =
            write_channel c (record { buffer = (s.channel c).buffer; closed = true }) s.channel;
      },
      rw (h, remove_log_stream) (rw (close_channel-open c s.channel open_) refl),
      record {
        table = refl;
        closed = ground arith;
        made = refl;
        tails = refl;
        others = λ d ne. ground arith;
        gone = gone;
        owned = record {
          distinct = delete-Distinct id s.log_streams o.distinct;
          single = Single-delete id s.log_streams o.single;
          opened = λ d r. ground (arith, o.opened d, registered-delete d id s.log_streams, gone);
          known = λ d r. o.known d (registered-delete d id s.log_streams r);
        };
      },
    )

abbrev pub Removed : Text → Streams → Streams → Option ℕ → Type 0
Removed id s t none = t ≡ s
Removed id s t (some c) = Closed id c s t

-- With the streams in order, to close the stream of a connection never panics; without a stream it
-- does nothing.
pub remove_log_stream_lem :
    (id : Text) (s : Streams)
    → IsOwned s
    → (t : Streams) × (remove_log_stream id s ≡ some t) × Removed id s t (lookup id s.log_streams)
unfolding remove_log_stream
remove_log_stream_lem id s o = elim (Option-cases (lookup id s.log_streams)) [
  | inl e ↦ (s, rw (e, remove_log_stream) refl, rw e refl)
  | inr (c, e) ↦ let closed = close_there id c s o e in (closed.0, closed.1, rw e closed.2)
]
