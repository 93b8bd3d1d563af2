-- ===== src/Process/Restart.antt =====
-- internal/process/manager.go: `RestartProcess`, and the restarts that the watchers schedule.
use tmidb_core.Base.{
  ◌+◌, ◌≡◌, ◌≢◌, ◌⊎◌, refl, ◌∙◌, ◌&&◌, true, false, [], Option, none, some, Text, arith, ltb_int,
  pos, ℤ,
}
use tmidb_core.Base.Dict.{lookup}
use tmidb_core.Process.{
  Process, Manager, running, stopped, starting, error, internal, external, is_running, not_running,
  already_restarting, is_restarting, is_internal, is_external, restarting, stop_failed,
}
use tmidb_core.Process.Control.{
  launched, System, put, launch, start_process, restart_process, restart_internal, restart_stopping,
  restart_external,
}
use tmidb_core.Process.Watch.{watch_process}
use tmidb_core.Process.Lifecycle.{lookup-put, stop_refused}

module _ {F : Type 0} where
  abbrev marked : Process F → Process F
  marked p = record p { state = restarting; restart_count = p.restart_count + 1 }

  not_restarting : (p : Process F) → p.state ≢ restarting → is_restarting p.state ≡ false
  not_restarting p h = ground arith

  -- Which of its three ways `RestartProcess` takes.
  restart_process-internal :
      (name : Text) (sys : System) (m : Manager F) (p : Process F)
      → lookup name m.processes ≡ some p
      → p.type ≡ internal
      → p.state ≡ running
      → ltb_int (pos 0) p.pid ≡ true
      → restart_process name sys m ≡ restart_internal name sys (marked p) m
  unfolding restart_process
  restart_process-internal name sys m p found int run live = ground arith

  restart_process-external :
      (name : Text) (sys : System) (m : Manager F) (p : Process F) (restart : Text → Option Text)
      → lookup name m.processes ≡ some p
      → p.type ≡ external
      → p.state ≢ restarting
      → m.external_service_restarter ≡ some restart
      → restart_process name sys m ≡ restart_external restart name (marked p) m
  unfolding restart_process
  restart_process-external name sys m p restart found ext other callback =
      ground (arith, not_restarting p other)

  restart_stopping_refused :
      (name : Text) (sys : System) (m : Manager F) (p : Process F)
      → is_running p.state ≡ false
      → restart_stopping name sys p m ≡ (
        put name
            (record p { state = error; last_error = some (stop_failed (not_running name)) })
            (put name p m),
        [],
        some (not_running name),
      )
  unfolding restart_stopping
  restart_stopping_refused name sys m p idle =
      ground (arith, stop_refused name sys (put name p m) p (lookup-put name p m) idle)

  -- A registered internal process that runs under a process id is restarted: where the system
  -- launches it, it runs under the new id, with one more restart to its count, and the call succeeds.
  pub restart_process_running :
      (name : Text) (sys : System) (m : Manager F) (p : Process F) (pid : ℤ)
      → lookup name m.processes ≡ some p
      → p.type ≡ internal
      → p.state ≡ running
      → ltb_int (pos 0) p.pid ≡ true
      → sys.outcome ≡ launched pid
      → ((restart_process name sys m).2 ≡ none)
        × ((p' : Process F) × (lookup name (restart_process name sys m).0.processes ≡ some p')
            × (p'.state ≡ running)
            × (p'.pid ≡ pid)
            × (p'.restart_count ≡ p.restart_count + 1))
  unfolding restart_internal start_process launch
  restart_process_running name sys m p pid found int run live go =
      let q = record (marked p) { state = stopped; pid = pos 0 } in
      let there = lookup-put name q m in
      let p' = (launch (launched pid) sys.now (record q { state = starting })).0 in
      let start : start_process name sys.outcome sys.now (put name q m)
          ≡ (put name p' (put name q m), none) =
        rw go (rw (there, start_process)) in
      rw (restart_process-internal name sys m p found int run live, restart_internal)
        (rw start (refl, (p', lookup-put name p' (put name q m), refl, refl, refl)))

  -- `RestartProcess` is about to call `StopProcess`: the process is not a running internal one, and
  -- no callback restarts it.
  abbrev pub NeedsStop : Process F → Manager F → Type 0
  NeedsStop p m =
      ((is_internal p.type && (is_running p.state && ltb_int (pos 0) p.pid)) ≡ false)
      × ((is_external p.type ≡ false) ⊎ (m.external_service_restarter ≡ none))

  restart_process-stopping :
      (name : Text) (sys : System) (m : Manager F) (p : Process F)
      → lookup name m.processes ≡ some p
      → p.state ≢ restarting
      → NeedsStop p m
      → restart_process name sys m ≡ restart_stopping name sys (marked p) m
  unfolding restart_process
  restart_process-stopping name sys m p found other needs = ground (arith, not_restarting p other)

  -- A restart of a process that is not restarting already, is not internal and running under a
  -- process id, and is not external with a callback, fails without a signal: `StopProcess` wants the
  -- process to run, and `RestartProcess` has just marked it as restarting. The process ends in the
  -- error state with one more restart counted.
  pub restart_process_fails :
      (name : Text) (sys : System) (m : Manager F) (p : Process F)
      → lookup name m.processes ≡ some p
      → p.state ≢ restarting
      → NeedsStop p m
      → ((restart_process name sys m).1 ≡ [])
        × ((restart_process name sys m).2 ≡ some (not_running name))
        × ((p' : Process F) × (lookup name (restart_process name sys m).0.processes ≡ some p')
            × (p'.state ≡ error)
            × (p'.restart_count ≡ p.restart_count + 1))
  restart_process_fails name sys m p found other needs =
      let q = record (marked p) {
        state = error;
        last_error = some (stop_failed (not_running name));
      } in
      rw
        (
          restart_process-stopping name sys m p found other needs,
          restart_stopping_refused name sys m (marked p) refl,
        )
        (refl, refl, (q, lookup-put name q (put name (marked p) m), refl, refl))

  watched-error :
      (e : Option Text) (p : Process F)
      → (watch_process e p).1 ≡ true
      → (watch_process e p).0.state ≢ restarting
  unfolding watch_process
  watched-error e p h = ground arith

  watched-NeedsStop :
      (e : Option Text) (p : Process F) (m : Manager F)
      → (watch_process e p).1 ≡ true
      → ((is_external p.type ≡ false) ⊎ (m.external_service_restarter ≡ none))
      → NeedsStop (watch_process e p).0 m
  unfolding watch_process
  watched-NeedsStop e p m h n = ground arith

  -- The restart that `watchProcess` schedules for a process that ended by itself fails, unless an
  -- external process has a callback: the process stays in the error state.
  pub auto_restart_fails :
      (name : Text) (sys : System) (m : Manager F) (p : Process F) (e : Option Text)
      → (watch_process e p).1 ≡ true
      → ((is_external p.type ≡ false) ⊎ (m.external_service_restarter ≡ none))
      → (restart_process name sys (put name (watch_process e p).0 m)).2 ≡ some (not_running name)
  auto_restart_fails name sys m p e scheduled no_callback =
      let q = (watch_process e p).0 in
      (restart_process_fails name sys (put name q m) q (lookup-put name q m)
        (λ h. watched-error e p scheduled h) (watched-NeedsStop e p m scheduled no_callback)).1

  restart_external_done :
      (name : Text) (p : Process F) (m : Manager F) (restart : Text → Option Text)
      → restart name ≡ none
      → restart_external restart name p m ≡ (put name p m, [], none)
  unfolding restart_external
  restart_external_done name p m restart done = rw (done, restart_external)

  restart_refused :
      (name : Text) (sys : System) (m : Manager F) (p : Process F)
      → lookup name m.processes ≡ some p
      → is_restarting p.state ≡ true
      → restart_process name sys m ≡ (m, [], some (already_restarting name))
  unfolding restart_process
  restart_refused name sys m p found again = ground arith

  -- An external process that its callback restarts stays in the restarting state, so the next
  -- restart is refused, and the callback is not asked.
  pub restart_external_once :
      (name : Text) (sys sys' : System) (m : Manager F) (p : Process F)
      (restart : Text → Option Text)
      → lookup name m.processes ≡ some p
      → p.type ≡ external
      → p.state ≢ restarting
      → m.external_service_restarter ≡ some restart
      → restart name ≡ none
      → ((restart_process name sys m).2 ≡ none)
        × (restart_process name sys' (restart_process name sys m).0
            ≡ ((restart_process name sys m).0, [], some (already_restarting name)))
  restart_external_once name sys sys' m p restart found ext other callback done =
      let e : restart_process name sys m ≡ (put name (marked p) m, [], none) =
        restart_process-external name sys m p restart found ext other callback
        ∙ restart_external_done name (marked p) m restart done in
      rw e (
        refl,
        restart_refused name sys' (put name (marked p) m) (marked p) (lookup-put name (marked p) m)
            refl,
      )
