-- ===== src/Ipc/Flood.antt =====
-- internal/ipc/server.go: the check of the limit comes before the connection is counted.
use tmidb_core.Base.{
  ℕ, zero, suc, ◌+◌, ◌≤◌, ◌<◌, ◌≡◌, refl, ap, true, false, List, [], ◌∷◌, Option, none, Text,
  length, leb, arith, text_eq, text_eq_ne,
}
use tmidb_core.Base.Dict.{lookup, length-insert, lookup-insert}
use tmidb_core.Ipc.{Message, Response, Server}
use tmidb_core.Ipc.Stream.{HandlerFunc}
use tmidb_core.Ipc.Table.{max_connections, without, new_server, accept, start_goroutine, register}
use tmidb_core.Ipc.Trace.{among, Reach, here, next, accepting, registering}

-- The goroutines that wait: the numbers below `n`.
waiting : ℕ → List ℕ
waiting zero = []
waiting (suc n) = n ∷ waiting n

length-waiting : (n : ℕ) → length (waiting n) ≡ n
unfolding waiting
length-waiting zero = refl
length-waiting (suc n) = ap suc (length-waiting n)

without-waiting : (k n : ℕ) → n ≤ k → without k (waiting n) ≡ waiting n
unfolding waiting without
without-waiting k zero h = refl
without-waiting k (suc n) h = ground (arith, without-waiting k n)

-- An identifier for each of them.
unary : ℕ → Text
unary zero = []
unary (suc n) = 0 ∷ unary n

length-unary : (n : ℕ) → length (unary n) ≡ n
unfolding unary
length-unary zero = refl
length-unary (suc n) = ap suc (length-unary n)

unary-ne : (i j : ℕ) → i < j → text_eq (unary j) (unary i) ≡ false
unary-ne i j h =
    text_eq_ne (unary j) (unary i) (λ e. omega (arith, length-unary i, length-unary j, ap length e))

-- A run in which `n` connections are accepted before any is registered.
record Waits (n : ℕ) (s : Server) : Type 0 where
  none_yet : s.connections ≡ []
  accepted : s.accepted ≡ waiting n
  arrived : s.arrived ≡ n
  running : s.running ≡ true

-- A run in which all but the first `n` have then registered.
record Fills (n m : ℕ) (s : Server) : Type 0 where
  count : length s.connections + n ≡ m
  free : (i : ℕ) → i < n → lookup (unary i) s.connections ≡ none
  accepted : s.accepted ≡ waiting n

module _ {D : Type 0} (unmarshal : Text → Option Message) (marshal : Response D → Option Text)
    (handlers : List (Text × HandlerFunc D)) (delay : ℕ) where
  accept-empty : (s : Server) → s.connections ≡ [] → accept s ≡ start_goroutine s
  unfolding accept
  accept-empty s e =
      let few : leb max_connections (length s.connections) ≡ false = ground (arith, ap length e) in
      rw (few, accept) refl

  start_goroutine-Waits : (n : ℕ) (s : Server) → Waits n s → Waits (suc n) (start_goroutine s)
  unfolding start_goroutine waiting
  start_goroutine-Waits n s w = record {
    none_yet = w.none_yet;
    accepted = rw (w.arrived) (ap (◌∷◌ n) w.accepted);
    arrived = ap suc w.arrived;
    running = w.running;
  }

  accept-Waits : (n : ℕ) (s : Server) → Waits n s → Waits (suc n) (accept s)
  accept-Waits n s w = rw (accept-empty s w.none_yet) (start_goroutine-Waits n s w)

  waits :
      (n : ℕ)
      → n ≤ suc delay
      → (s : Server) × Reach unmarshal marshal handlers delay new_server s × Waits n s
  unfolding new_server waiting
  waits zero h = (
    new_server,
    here,
    record { none_yet = refl; accepted = refl; arrived = refl; running = refl },
  )
  waits (suc n) h =
      let before = waits n (omega arith) in
      let few : length before.0.accepted ≤ delay =
        omega (arith, length-waiting n, ap length before.2.accepted) in
      (
        accept before.0,
        next before.1 (accepting before.2.running few),
        accept-Waits n before.0 before.2,
      )

  dropped : (n : ℕ) → without n (n ∷ waiting n) ≡ waiting n
  unfolding without
  dropped n = ground (arith, without-waiting n n)

  first_among : (n : ℕ) (js : List ℕ) → js ≡ n ∷ waiting n → among n js ≡ true
  unfolding among
  first_among n js e = rw e (ground arith)

  register-Fills :
      (n m now : ℕ) (s : Server) → Fills (suc n) m s → Fills n m (register n (unary n) now s)
  unfolding register waiting
  register-Fills n m now s f = record {
    count =
        let one = length-insert (unary n) n s.connections in
        omega (arith, rw (f.free n (omega arith)) at one, f.count);
    free = λ i h.
        rw (lookup-insert (unary n) (unary i) n s.connections)
          (rw (unary-ne i n h) (f.free i (omega arith)));
    accepted = rw (f.accepted) (dropped n);
  }

  fills :
      (n m : ℕ) (s : Server)
      → Reach unmarshal marshal handlers delay new_server s
      → Fills n m s
      → (t : Server) × Reach unmarshal marshal handlers delay new_server t
        × (length t.connections ≡ m)
  unfolding waiting
  fills zero m s r f = (s, r, omega (arith, f.count))
  fills (suc n) m s r f =
      fills n m (register n (unary n) 0 s)
        (next r (registering n (unary n) 0 (first_among n s.accepted f.accepted)))
        (register-Fills n m 0 s f)

  -- The limit does not hold for any number: when the goroutines of `delay` connections are late
  -- to register, one more connection than that can be registered, be it beyond `MaxConnections`.
  pub exceeds_limit :
      (t : Server) × Reach unmarshal marshal handlers delay new_server t
      × (length t.connections ≡ suc delay)
  unfolding lookup
  exceeds_limit =
      let w = waits (suc delay) (omega arith) in
      fills (suc delay) (suc delay) w.0 w.1 (record {
        count = omega (arith, ap length w.2.none_yet);
        free = λ i h. rw (w.2.none_yet) refl;
        accepted = w.2.accepted;
      })
