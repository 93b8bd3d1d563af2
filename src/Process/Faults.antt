-- ===== src/Process/Faults.antt =====
-- internal/process/manager.go: what the manager does to processes that it did not start, and what
-- its watchers see while it restarts one.
use tmidb_core.Base.{
  ℕ, ◌+◌, ◌≡◌, ◌≢◌, refl, ap, Bool, true, false, [], Option, none, some, Text, arith, ◌⊎◌, pos, ℤ,
}
use tmidb_core.Base.Dict.{lookup}
use tmidb_core.Process.{
  Process, Manager, running, stopped, error, is_running, is_internal, is_external, stopping,
  not_running, exited_unexpectedly,
}
use tmidb_core.Process.Control.{
  System, put, attach_process, is_process_running, stop_process, restart_process, finish_stop,
  command_signals,
}
use tmidb_core.Process.Watch.{watch_process, watch_attached_process, restarts_left}
use tmidb_core.Process.Lifecycle.{lookup-put, stop_process_eq}
use tmidb_core.Process.Restart.{restart_process_fails, NeedsStop}

module _ {F : Type 0} where
  abbrev attached_at : ℤ → ℕ → Process F → Process F
  attached_at pid now p = record p {
    pid = pid;
    start_time = now;
    state = running;
    last_error = none;
    has_cmd = false;
  }

  attach_process_eq :
      (name : Text) (pid : ℤ) (now : ℕ) (m : Manager F) (p : Process F)
      → lookup name m.processes ≡ some p
      → is_running p.state ≡ false
      → is_process_running pid true ≡ true
      → attach_process name pid true now m ≡ (put name (attached_at pid now p) m, none)
  unfolding attach_process
  attach_process_eq name pid now m p found idle live = ground arith

  -- Stopping an attached process that is not internal records it as stopped, with no process id and
  -- no error, and sends it no signal: it goes on running.
  pub stop_attached_silent :
      (name : Text) (pid : ℤ) (now : ℕ) (sys : System) (m : Manager F) (p : Process F)
      → lookup name m.processes ≡ some p
      → is_internal p.type ≡ false
      → is_running p.state ≡ false
      → is_process_running pid true ≡ true
      → let attached = (attach_process name pid true now m).0 in
        ((attach_process name pid true now m).1 ≡ none)
        × ((stop_process name sys attached).1 ≡ [])
        × ((stop_process name sys attached).2 ≡ none)
        × ((p' : Process F) × (lookup name (stop_process name sys attached).0.processes ≡ some p')
            × (p'.state ≡ stopped)
            × (p'.pid ≡ pos 0))
  unfolding command_signals finish_stop
  stop_attached_silent name pid now sys m p found kind idle live =
      let a = attached_at pid now p in
      let e = attach_process_eq name pid now m p found idle live in
      rw e (
        rw (stop_process_eq name sys (put name a m) a (lookup-put name a m) refl) (
          refl,
          rw kind,
          refl,
          (
            finish_stop (record a { state = stopping }),
            lookup-put name (finish_stop (record a { state = stopping })) (put name a m),
            refl,
            refl,
          ),
        ))

  abbrev ended : Process F → Process F
  ended p = record p {
    state = error;
    last_error = some exited_unexpectedly;
    pid = pos 0;
    restart_count = p.restart_count + 1;
  }

  watch_attached_process_eq :
      (p : Process F)
      → restarts_left p ≡ true
      → watch_attached_process false p ≡ (ended p, true, false)
  unfolding watch_attached_process is_process_running
  watch_attached_process_eq p left = ground arith

  ended-NeedsStop :
      (p : Process F) (m : Manager F)
      → ((is_external p.type ≡ false) ⊎ (m.external_service_restarter ≡ none))
      → NeedsStop (ended p) m
  ended-NeedsStop p m n = ground arith

  -- One unexpected end of an attached process that may restart counts twice against its limit: the
  -- watch counts it, and so does the restart, which fails (unless an external process has a callback).
  pub watch_attached_counts_twice :
      (name : Text) (sys : System) (m : Manager F) (p : Process F)
      → restarts_left p ≡ true
      → ((is_external p.type ≡ false) ⊎ (m.external_service_restarter ≡ none))
      → let watched = watch_attached_process false p in
        (watched.1 ≡ true)
        × ((restart_process name sys (put name watched.0 m)).2 ≡ some (not_running name))
        × ((p' : Process F) × (lookup name
                (restart_process name sys (put name watched.0 m)).0.processes
              ≡ some p')
            × (p'.state ≡ error)
            × (p'.restart_count ≡ p.restart_count + 2))
  watch_attached_counts_twice name sys m p left no_callback =
      let q = ended p in
      let e = watch_attached_process_eq p left in
      let (signals, refused, (p', found, state, count)) =
        restart_process_fails name sys (put name q m) q (lookup-put name q m) (λ h. cc)
          (ended-NeedsStop p m no_callback) in
      rw e (refl, refused, (p', found, state, omega (arith, count)))

  -- While a process is being restarted its watcher sees it end, takes that for an unexpected end, and
  -- schedules one more restart if the limit allows; only the end of a process that is being stopped
  -- is taken as meant.
  pub watch_process_lem :
      (e : Option Text) (p : Process F)
      → ((p.state ≡ stopping)
          → ((watch_process e p).0.state ≡ stopped) × ((watch_process e p).1 ≡ false))
        × ((p.state ≢ stopping)
            → ((watch_process e p).0.state ≡ error)
              × ((watch_process e p).1 ≡ restarts_left p)
              × ((watch_process e p).0.pid ≡ p.pid))
  unfolding watch_process
  watch_process_lem none p = ground arith
  watch_process_lem (some t) p = ground arith

  watch_attached_stopped :
      (alive : Bool) (p : Process F)
      → ((watch_attached_process alive (finish_stop p)).0.state ≡ error)
        × ((watch_attached_process alive (finish_stop p)).1 ≡ restarts_left p)
  unfolding watch_attached_process finish_stop is_process_running
  watch_attached_stopped alive p = ground arith

  -- The watch of an attached process outlives a stop of it: at its next look it finds no process id,
  -- takes that for an unexpected end whatever the system answers, records the stopped process as in
  -- error, and schedules a restart if the limit allows one.
  pub stop_attached_watched :
      (name : Text) (sys : System) (m : Manager F) (p : Process F) (alive : Bool)
      → lookup name m.processes ≡ some p
      → p.state ≡ running
      → (q : Process F) × (lookup name (stop_process name sys m).0.processes ≡ some q)
        × (q.state ≡ stopped)
        × ((watch_attached_process alive q).0.state ≡ error)
        × ((watch_attached_process alive q).1 ≡ restarts_left p)
  unfolding finish_stop
  stop_attached_watched name sys m p alive found run =
      let q = finish_stop (record p { state = stopping }) in
      let (seen, scheduled) = watch_attached_stopped alive (record p { state = stopping }) in
      rw (stop_process_eq name sys m p found (ap is_running run))
        (q, lookup-put name q m, refl, seen, scheduled)
