-- ===== src/Supervisor/Settled.antt =====
-- internal/supervisor/supervisor.go: the copy sessions stay orderly in every run, and what becomes of
-- a session that is stopped.
use tmidb_core.Base.{
  ℕ, ◌≡◌, refl, ℤ, Bool, true, false, List, [], ◌∷◌, Option, none, some, Text, arith, ◌==◌,
  Option-cases, Bool-cases, inl, inr,
}
use tmidb_core.Base.Dict.{lookup}
use tmidb_core.Supervisor.Copy.{
  stat_size, stat_error, completed, stopped, CopySession, Pc, moving, Copies, write_at, add_session,
  no_directory, no_port, ready, receive_session, send_session, handle_copy_receive,
  handle_copy_send, with_status, no_copies,
}
use tmidb_core.Supervisor.Stop.{is_among, begin_stop, end_stop, without_one}
use tmidb_core.Supervisor.Worker.{Outcome, run_from, advance, complete}
use tmidb_core.Supervisor.Orderly.{is_over, counts, ends, Counted, HasEnd, Orderly}
use tmidb_core.Supervisor.Writes.{run_from-Orderly}
use tmidb_core.Supervisor.Session.{
  Event, receive_request, send_request, stop_request, stop_write, step, happen, run,
}

not_new :
    (m : Copies) (b : Pc → Bool) (g : ℕ)
    → Orderly m
    → b Pc.ended ≡ false
    → b (m.pc g) ≡ true
    → (g == m.made) ≡ false
not_new m b g o none_left h = elim (Bool-cases (g == m.made)) [
  | inl e ↦
      let is : g ≡ m.made = ground arith in
      let idle = o.idle g (omega (arith, is)) in
      absurd (let no : b Pc.ended ≡ true = rw idle at h in cc)
  | inr e ↦ e
]

add_session-Orderly :
    (c : CopySession) (m : Copies)
    → is_over c.status ≡ false
    → Orderly m
    → Orderly (add_session c m)
unfolding add_session
add_session-Orderly c m open_ o = record {
  idle = λ g late. let old = o.idle g (omega (arith, late)) in ground (arith, old, late);
  moved = λ k h. elim (Bool-cases (k == m.made)) [
    | inl e ↦ absurd (
        let is : c.status ≡ completed = rw e at h in
        let no : is_over c.status ≡ true = rw is refl in cc)
    | inr e ↦ elim (o.moved k (rw e at h)) [
      | inl t ↦ inl (rw e t)
      | inr (g, t) ↦ inr (g, rw (not_new m (counts k) g o refl t) t)
    ]
  ];
  over = λ k h. elim (Bool-cases (k == m.made)) [
    | inl e ↦ absurd (let is : is_over c.status ≡ true = rw e at h in cc)
    | inr e ↦ elim (o.over k (rw e at h)) [
      | inl t ↦ inl (rw e t)
      | inr (inl (g, t)) ↦ inr (inl (g, rw (not_new m (ends k) g o refl t) t))
      | inr (inr t) ↦ inr (inr t)
    ]
  ];
}

begin_stop-Orderly : (id : Option Text) (m : Copies) → Orderly m → Orderly (begin_stop [] id m).0
unfolding begin_stop
begin_stop-Orderly none m o = o
begin_stop-Orderly (some id) m o = elim (Option-cases (lookup id m.copy_sessions)) [
  | inl e ↦ rw (e, begin_stop) o
  | inr (k, e) ↦
      rw (e, begin_stop)
        (record {
          idle = o.idle;
          moved = λ j h. elim (Bool-cases (j == k)) [
            | inl is ↦ absurd (let no : stopped ≡ completed = rw is at h in cc)
            | inr is ↦ rw is (o.moved j (rw is at h))
          ];
          over = λ j h. elim (Bool-cases (j == k)) [
            | inl is ↦ inr (inr (ground arith))
            | inr is ↦ elim (o.over j (rw is at h)) [
              | inl t ↦ inl (rw is t)
              | inr (inl t) ↦ inr (inl t)
              | inr (inr t) ↦ inr (inr (ground (arith, t)))
            ]
          ];
        })
]

is_among-without_one :
    (j k : ℕ) (ks : List ℕ)
    → (j == k) ≡ false
    → is_among j ks ≡ true
    → is_among j (without_one k ks) ≡ true
unfolding without_one
is_among-without_one j k [] ne h = h
is_among-without_one j k (i ∷ ks) ne h = ground (arith, is_among-without_one j k ks)

end_stop-Orderly : (k now : ℕ) (m : Copies) → Orderly m → Orderly (end_stop k now m)
unfolding end_stop
end_stop-Orderly k now m o = record {
  idle = o.idle;
  moved = λ j h. elim (Bool-cases (j == k)) [
    | inl is ↦ let same : j ≡ k = ground arith in rw is (rw same (o.moved k (rw is at h)))
    | inr is ↦ rw is (o.moved j (rw is at h))
  ];
  over = λ j h. elim (Bool-cases (j == k)) [
    | inl is ↦ inl (rw is refl)
    | inr is ↦ elim (o.over j (rw is at h)) [
      | inl t ↦ inl (rw is t)
      | inr (inl t) ↦ inr (inl t)
      | inr (inr t) ↦ inr (inr (is_among-without_one j k m.stopping is t))
    ]
  ];
}

no_copies-Orderly : Orderly no_copies
no_copies-Orderly = record {
  idle = λ g late. refl;
  moved = λ k h. absurd (cc);
  over = λ k h. absurd (cc);
}

module _ (receive_id : ℕ → ℤ → Text) (send_id : ℕ → Text → Text) where
  happen-Orderly : (e : Event) (m : Copies) → Orderly m → Orderly (happen receive_id send_id e m)
  unfolding happen handle_copy_receive handle_copy_send advance receive_session send_session
  happen-Orderly (receive_request port path (no_directory e) now) m o = o
  happen-Orderly (receive_request port path (no_port e) now) m o = o
  happen-Orderly (receive_request port path ready now) m o = add_session-Orderly _ m refl o
  happen-Orderly (send_request none host port stat now) m o = o
  happen-Orderly (send_request (some path) none port stat now) m o = o
  happen-Orderly (send_request (some path) (some host) port (stat_error e) now) m o = o
  happen-Orderly (send_request (some path) (some host) port (stat_size size) now) m o =
      add_session-Orderly _ m refl o
  happen-Orderly (stop_request id) m o = begin_stop-Orderly id m o
  happen-Orderly (stop_write k now) m o = elim (Bool-cases (is_among k m.stopping)) [
    | inl e ↦ rw e (end_stop-Orderly k now m o)
    | inr e ↦ rw e o
  ]
  happen-Orderly (step g outcome now) m o = run_from-Orderly g m o (m.pc g) outcome now refl

  run-Orderly_from :
      (es : List Event) (m : Copies) → Orderly m → Orderly (run receive_id send_id es m)
  unfolding run
  run-Orderly_from [] m o = o
  run-Orderly_from (e ∷ es) m o =
      run-Orderly_from es (happen receive_id send_id e m) (happen-Orderly e m o)

  -- In a new supervisor, whatever requests come, and however the single writes of the goroutines and
  -- of the requests to stop follow each other: a session that shows as completed shows its whole file
  -- as transferred, or a goroutine has yet to write that; one that shows as completed, failed or
  -- stopped has an end time, or a goroutine or a request to stop has yet to write it.
  pub run-Orderly :
      (es : List Event) (k : ℕ)
      → let m = run receive_id send_id es no_copies in
        ((m.session k).status ≡ completed → Counted m k)
        × (is_over (m.session k).status ≡ true → HasEnd m k)
  run-Orderly es k =
      let o = run-Orderly_from es no_copies no_copies-Orderly in (o.moved k, o.over k)

  stop-session :
      (id : Text) (k now : ℕ) (m : Copies)
      → lookup id m.copy_sessions ≡ some k
      → happen receive_id send_id (stop_request (some id)) m ≡ record m {
        session = write_at k (with_status stopped (m.session k)) m.session;
        stopping = k ∷ m.stopping;
      }
  unfolding happen begin_stop
  stop-session id k now m found = rw (found, happen, begin_stop) refl

  -- A session that is stopped during its transfer shows as stopped, and as completed after the next
  -- step of its goroutine.
  pub stop_is_lost :
      (id : Text) (k g now later : ℕ) (outcome : Outcome) (m : Copies)
      → lookup id m.copy_sessions ≡ some k
      → m.pc g ≡ moving k
      → let stop = happen receive_id send_id (stop_request (some id)) m in
        ((stop.session k).status ≡ stopped)
        × (((happen receive_id send_id (step g outcome later) stop).session k).status ≡ completed)
  unfolding happen advance run_from complete
  stop_is_lost id k g now later outcome m found at =
      rw (stop-session id k now m found) (ground arith, rw (at, advance) (ground arith))
