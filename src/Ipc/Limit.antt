-- ===== src/Ipc/Limit.antt =====
-- internal/ipc/server.go: how far the number of connections can go beyond MaxConnections.
use tmidb_core.Base.{
  ℕ, suc, ◌+◌, ◌≤◌, ◌≡◌, ap, Bool, true, false, List, [], ◌∷◌, Option, some, Text, length, arith,
}
use tmidb_core.Base.Dict.{insert, delete, delete_keys, select}
use tmidb_core.Ipc.{Message, Response, Server}
use tmidb_core.Ipc.Stream.{HandlerFunc}
use tmidb_core.Ipc.Table.{
  max_connections, without, new_server, accept, refuse, start_goroutine, register, finish,
  remove_connection, cleanup_inactive_connections, stop, is_inactive,
}
use tmidb_core.Ipc.Serve.{Turn, turn}
use tmidb_core.Ipc.Effect.{turn-Effect}
use tmidb_core.Ipc.Trace.{
  among, Step, Reach, here, next, accepting, registering, turning, finishing, cleaning,
  broadcasting, tailing, stopping,
}

length-delete_le : {V : Type 0} (k : Text) (m : List (Text × V)) → length (delete k m) ≤ length m
unfolding delete
length-delete_le k [] = omega arith
length-delete_le k ((j, v) ∷ m) = ground (arith, length-delete_le k m)

length-delete_keys_le :
    {V : Type 0} (ks : List Text) (m : List (Text × V)) → length (delete_keys ks m) ≤ length m
unfolding delete_keys
length-delete_keys_le [] m = omega arith
length-delete_keys_le (k ∷ ks) m =
    omega (arith, length-delete_keys_le ks (delete k m), length-delete_le k m)

length-insert_le :
    {V : Type 0} (k : Text) (v : V) (m : List (Text × V)) → length (insert k v m) ≤ suc (length m)
unfolding insert
length-insert_le k v [] = omega arith
length-insert_le k v ((j, w) ∷ m) = ground (arith, length-insert_le k v m)

length-without_le : (k : ℕ) (js : List ℕ) → length (without k js) ≤ length js
unfolding without
length-without_le k [] = omega arith
length-without_le k (j ∷ js) = ground (arith, length-without_le k js)

length-without : (k : ℕ) (js : List ℕ) → among k js ≡ true → suc (length (without k js)) ≤ length js
unfolding without among
length-without k [] h = absurd (cc)
length-without k (j ∷ js) h = ground (arith, length-without k js, length-without_le k js)

-- How many connections are registered or will be.
abbrev pub load : Server → ℕ
load s = length s.connections + length s.accepted

accept-load :
    (delay : ℕ) (s : Server)
    → length s.accepted ≤ delay
    → load s ≤ max_connections + delay
    → load (accept s) ≤ max_connections + delay
unfolding accept refuse start_goroutine
accept-load delay s few h = ground arith

register-load :
    (k : ℕ) (id : Text) (now : ℕ) (s : Server)
    → among k s.accepted ≡ true
    → load (register k id now s) ≤ load s
unfolding register
register-load k id now s h =
    omega (arith, length-insert_le id k s.connections, length-without k s.accepted h)

module _ {D : Type 0} (unmarshal : Text → Option Message) (marshal : Response D → Option Text)
    (handlers : List (Text × HandlerFunc D)) (delay : ℕ) where
  turn-load :
      (t : Turn) (k : ℕ) (s r : Server) (again : Bool)
      → turn unmarshal marshal handlers t k s ≡ some (r, again)
      → load r ≡ load s
  turn-load t k s r again h =
      let same = (turn-Effect unmarshal marshal handlers t k s r again h).same in
      omega (arith, ap length same.connections, ap length same.accepted)

  Step-load :
      {s t : Server}
      → Step unmarshal marshal handlers delay s t
      → load s ≤ max_connections + delay
      → load t ≤ max_connections + delay
  unfolding finish remove_connection cleanup_inactive_connections stop
  Step-load {s = s} (accepting up few) h = accept-load delay s few h
  Step-load {s = s} (registering k id now there) h = omega (arith, register-load k id now s there)
  Step-load {s = s} (turning k t {r = r} there e) h = omega (arith, turn-load t k s r true e)
  Step-load {s = s} (finishing k t {r = r} there e) h =
      omega (arith, turn-load t k s r false e, length-delete_le (r.connection k).id r.connections)
  Step-load {s = s} (cleaning now) h = omega (
    arith,
    length-delete_keys_le (select (is_inactive now s.connection) s.connections) s.connections,
  )
  Step-load (broadcasting entry e) h = h
  Step-load (tailing c entry there e) h = h
  Step-load stopping h = h

  -- Whatever the order of the goroutines' steps: when at most `delay` accepted connections have
  -- yet to register each time one more is accepted, no more than `MaxConnections` and `delay`
  -- connections are ever registered or about to be.
  pub Reach-load :
      {s : Server}
      → Reach unmarshal marshal handlers delay new_server s
      → length s.connections + length s.accepted ≤ max_connections + delay
  unfolding new_server
  Reach-load here = omega arith
  Reach-load (next r step) = Step-load step (Reach-load r)
