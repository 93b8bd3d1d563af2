-- ===== src/Supervisor/Session.antt =====
-- internal/supervisor/supervisor.go: the copy sessions under any sequence of requests and of steps
-- of their goroutines.
use tmidb_core.Base.{
  ℕ, suc, ◌+◌, ◌-◌, ◌≤◌, ◌<◌, ◌≡◌, ◌≢◌, refl, sym, ap, ℤ, List, [], ◌∷◌, Option, none, some, Text,
  arith, ◌==◌, if◌then◌else◌, Bool-cases, inl, inr,
}
use tmidb_core.Supervisor.Copy.{
  FileStat, stat_size, stat_error, CopySession, Pc, ended, Copies, add_session, Setup, no_directory,
  no_port, ready, handle_copy_receive, handle_copy_send,
}
use tmidb_core.Supervisor.Stop.{begin_stop, end_stop, is_among}
use tmidb_core.Supervisor.Worker.{Outcome, advance}
use tmidb_core.Supervisor.Transfer.{rank, run_from-rank, run_from-other, run_from-made}

-- What happens to the sessions: a request, the second write of a request to stop, or a step of a
-- goroutine with the system's answer.
pub data Event : Type 0 where
  receive_request : (port : Option ℤ) (path : Option Text) (setup : Setup) (now : ℕ) → Event
  send_request : (path host : Option Text) (port : Option ℤ) (stat : FileStat) (now : ℕ) → Event
  stop_request : (session_id : Option Text) → Event
  stop_write : (k : ℕ) (now : ℕ) → Event
  step : (g : ℕ) (outcome : Outcome) (now : ℕ) → Event

module _ (receive_id : ℕ → ℤ → Text) (send_id : ℕ → Text → Text) where
  unfoldable pub happen : Event → Copies → Copies
  happen (receive_request port path setup now) m =
      (handle_copy_receive receive_id send_id [] port path setup now m).0
  happen (send_request path host port stat now) m =
      (handle_copy_send receive_id send_id [] path host port stat now m).0
  happen (stop_request session_id) m = (begin_stop [] session_id m).0
  happen (stop_write k now) m = if is_among k m.stopping then end_stop k now m else m
  happen (step g outcome now) m = advance outcome now g m

  unfoldable pub run : List Event → Copies → Copies
  run [] m = m
  run (e ∷ es) m = run es (happen e m)

  -- How many of the events are steps of a goroutine.
  abbrev pub steps_of : ℕ → List Event → ℕ
  steps_of g [] = 0
  steps_of g (step h outcome now ∷ es) = if h == g then suc (steps_of g es) else steps_of g es
  steps_of g (e ∷ es) = steps_of g es

  add_session-pc :
      (c : CopySession) (g : ℕ) (m : Copies)
      → g < m.made
      → ((add_session c m).pc g ≡ m.pc g) × (g < (add_session c m).made)
  unfolding add_session
  add_session-pc c g m lt = ground arith

  -- A request leaves the goroutines that are there where they are.
  pub happen-pc :
      (e : Event) (g : ℕ) (m : Copies)
      → g < m.made
      → steps_of g (e ∷ []) ≡ 0
      → ((happen e m).pc g ≡ m.pc g) × (g < (happen e m).made)
  unfolding happen handle_copy_receive handle_copy_send begin_stop end_stop advance
  happen-pc (receive_request port path (no_directory e) now) g m lt h = (refl, lt)
  happen-pc (receive_request port path (no_port e) now) g m lt h = (refl, lt)
  happen-pc (receive_request port path ready now) g m lt h = add_session-pc _ g m lt
  happen-pc (send_request none host port stat now) g m lt h = (refl, lt)
  happen-pc (send_request (some path) none port stat now) g m lt h = (refl, lt)
  happen-pc (send_request (some path) (some host) port (stat_error e) now) g m lt h = (refl, lt)
  happen-pc (send_request (some path) (some host) port (stat_size size) now) g m lt h =
      add_session-pc _ g m lt
  happen-pc (stop_request none) g m lt h = (refl, lt)
  happen-pc (stop_request (some id)) g m lt h = ground arith
  happen-pc (stop_write k now) g m lt h = ground arith
  happen-pc (step j outcome now) g m lt h =
      let apart : g ≢ j = λ e. ground (arith, h) in
      (
        run_from-other (m.pc j) outcome now j g m apart,
        rw (run_from-made (m.pc j) outcome now j m) lt,
      )

  happen-rank :
      (e : Event) (g : ℕ) (m : Copies)
      → g < m.made
      → (rank ((happen e m).pc g) ≤ rank (m.pc g) - steps_of g (e ∷ [])) × (g < (happen e m).made)
  unfolding happen advance
  happen-rank (step j outcome now) g m lt = elim (Bool-cases (j == g)) [
    | inl e ↦
        let same : j ≡ g = ground arith in
        let less = run_from-rank (m.pc j) outcome now j m refl in
        (rw e (rw (sym same) less), rw (run_from-made (m.pc j) outcome now j m) lt)
    | inr e ↦
        let kept = happen-pc (step j outcome now) g m lt (rw e refl) in
        (rw e (omega (arith, ap rank kept.0)), kept.1)
  ]
  happen-rank (receive_request port path setup now) g m lt =
      let kept = happen-pc (receive_request port path setup now) g m lt refl in
      (omega (arith, ap rank kept.0), kept.1)
  happen-rank (send_request path host port stat now) g m lt =
      let kept = happen-pc (send_request path host port stat now) g m lt refl in
      (omega (arith, ap rank kept.0), kept.1)
  happen-rank (stop_request id) g m lt =
      let kept = happen-pc (stop_request id) g m lt refl in (omega (arith, ap rank kept.0), kept.1)
  happen-rank (stop_write k now) g m lt =
      let kept = happen-pc (stop_write k now) g m lt refl in (omega (arith, ap rank kept.0), kept.1)

  steps_of-cons :
      (e : Event) (g : ℕ) (es : List Event)
      → steps_of g (e ∷ es) ≡ steps_of g (e ∷ []) + steps_of g es
  steps_of-cons e g es = ground arith

  run-rank :
      (es : List Event) (g : ℕ) (m : Copies)
      → g < m.made
      → rank ((run es m).pc g) ≤ rank (m.pc g) - steps_of g es
  unfolding run
  run-rank [] g m lt = omega arith
  run-rank (e ∷ es) g m lt =
      let first = happen-rank e g m lt in
      omega (arith, first.0, run-rank es g (happen e m) first.1, steps_of-cons e g es)

  rank-ended : (at : Pc) → rank at ≤ 0 → at ≡ ended
  unfolding rank
  rank-ended at h = ground arith

  rank-le : (at : Pc) → rank at ≤ 7
  unfolding rank
  rank-le at = ground arith

  -- Whatever requests come, and whatever the system answers: after seven steps of its goroutine a
  -- session's goroutine has ended.
  pub run-ended :
      (es : List Event) (g : ℕ) (m : Copies)
      → g < m.made
      → 7 ≤ steps_of g es
      → (run es m).pc g ≡ ended
  run-ended es g m lt h =
      rank-ended ((run es m).pc g) (omega (arith, run-rank es g m lt, rank-le (m.pc g)))
