-- ===== src/Process/Lifecycle.antt =====
-- internal/process/manager.go: starting and stopping one process.
use tmidb_core.Base.{
  ℕ, zero, suc, ◌<◌, ◌≡◌, refl, subst, ap, ◌&&◌, ◌||◌, Bool, true, false, List, [], ◌∷◌, Option,
  none, some, Text, arith, text_eq_iff, Option-cases, Bool-cases, inl, inr, ltb_int, pos, ℤ,
  if◌then◌else◌, leb,
}
use tmidb_core.Base.Dict
use tmidb_core.Base.Dict.{lookup}
use tmidb_core.Process.{
  Process, Manager, Error, running, stopped, starting, error, is_running, is_starting, not_running,
  already_running, is_internal, stopping,
}
use tmidb_core.Process.Control.{
  Launch, launched, System, sigterm, sigkill, put, finish_stop, command_signals, launch,
  start_process, stop_process, stop_signals, await_exit, is_process_running,
}

module _ {F : Type 0} where
  pub lookup-put :
      (name : Text) (p : Process F) (m : Manager F) → lookup name (put name p m).processes ≡ some p
  lookup-put name p m =
      ground (arith, Dict.lookup-insert name name p m.processes, text_eq_iff name name)

  -- Where a start ends: the process runs and the call succeeds, or it is in error and the call fails.
  abbrev pub Settled : Process F → Option Error → Type 0
  Settled p none = p.state ≡ running
  Settled p (some e) = p.state ≡ error

  launch-Settled :
      (outcome : Launch) (now : ℕ) (p : Process F)
      → Settled (launch outcome now p).0 (launch outcome now p).1
  unfolding launch
  launch-Settled (Launch.no_stdout e) now p = refl
  launch-Settled (Launch.no_stderr e) now p = refl
  launch-Settled (Launch.no_start e) now p = refl
  launch-Settled (launched pid) now p = refl

  -- A start of a process that neither runs nor starts leaves it running and returns no error, or
  -- leaves it in the error state and returns the error; it is never left in the starting state.
  pub start_process-Settled :
      (name : Text) (outcome : Launch) (now : ℕ) (m : Manager F) (p : Process F)
      → lookup name m.processes ≡ some p
      → (is_running p.state || is_starting p.state) ≡ false
      → (p' : Process F) × (lookup name (start_process name outcome now m).0.processes ≡ some p')
        × Settled p' (start_process name outcome now m).1
  unfolding start_process
  start_process-Settled name outcome now m p found idle =
      let started = launch outcome now (record p { state = starting }) in
      rw (found, start_process)
        (rw idle (
          started.0,
          lookup-put name started.0 m,
          launch-Settled outcome now (record p { state = starting }),
        ))

  pub start_refused :
      (name : Text) (outcome : Launch) (now : ℕ) (m : Manager F) (p : Process F)
      → lookup name m.processes ≡ some p
      → (is_running p.state || is_starting p.state) ≡ true
      → start_process name outcome now m ≡ (m, some (already_running name))
  unfolding start_process
  start_refused name outcome now m p found busy = rw (found, start_process) (rw busy)

  pub start_process_running :
      (name : Text) (outcome : Launch) (now : ℕ) (m : Manager F)
      → (start_process name outcome now m).1 ≡ none
      → (p : Process F) × (lookup name (start_process name outcome now m).0.processes ≡ some p)
        × (p.state ≡ running)
  unfolding start_process
  start_process_running name outcome now m h = elim (Option-cases (lookup name m.processes)) [
    | inl e ↦ absurd (ground (arith, e, h))
    | inr (p, e) ↦ elim (Bool-cases (is_running p.state || is_starting p.state)) [
      | inl busy ↦ absurd (ground (arith, e, h, busy))
      | inr idle ↦
          let (p', found, settled) = start_process-Settled name outcome now m p e idle in
          (p', found, subst (Settled p') h settled)
    ]
  ]

  -- A process that is started is not started again: the second call is refused and changes nothing.
  pub start_process_twice :
      (name : Text) (outcome again : Launch) (now later : ℕ) (m : Manager F)
      → (start_process name outcome now m).1 ≡ none
      → start_process name again later (start_process name outcome now m).0
        ≡ ((start_process name outcome now m).0, some (already_running name))
  start_process_twice name outcome again now later m h =
      let (p, found, run) = start_process_running name outcome now m h in
      start_refused name again later (start_process name outcome now m).0 p found
        (ap (λ s. is_running s || is_starting s) run)

  pub stop_refused :
      (name : Text) (sys : System) (m : Manager F) (p : Process F)
      → lookup name m.processes ≡ some p
      → is_running p.state ≡ false
      → stop_process name sys m ≡ (m, [], some (not_running name))
  unfolding stop_process
  stop_refused name sys m p found idle = rw (found, stop_process) (rw idle)

  pub stop_process_eq :
      (name : Text) (sys : System) (m : Manager F) (p : Process F)
      → lookup name m.processes ≡ some p
      → is_running p.state ≡ true
      → stop_process name sys m ≡ (
        put name (finish_stop (record p { state = stopping })) m,
        (if is_internal p.type && ltb_int (pos 0) p.pid
            then stop_signals p.pid sys.polls
            else command_signals p.has_cmd sys.exited),
        none,
      )
  unfolding stop_process
  stop_process_eq name sys m p found run = rw (found, stop_process) (rw run)

  -- What a start leaves of a process that the system launches.
  pub record Launched (name : Text) (pid : ℤ) (r : Manager F × Option Error) : Type 0 where
    pub process : Process F
    pub found : lookup name r.0.processes ≡ some process
    pub runs : process.state ≡ running
    pub id : process.pid ≡ pid
    pub succeeds : r.1 ≡ none

  start-Launched :
      (name : Text) (pid : ℤ) (now : ℕ) (m : Manager F) (p : Process F)
      → lookup name m.processes ≡ some p
      → (is_running p.state || is_starting p.state) ≡ false
      → Launched name pid (start_process name (launched pid) now m)
  unfolding start_process launch
  start-Launched name pid now m p found idle =
      rw (found, start_process)
        (rw idle (record {
          process = (launch (launched pid) now (record p { state = starting })).0;
          found = lookup-put name _ m;
          runs = refl;
          id = refl;
          succeeds = refl;
        }))

  -- Stopping a running process leaves it stopped with no process id, whatever the system answers; a
  -- second stop is refused and changes nothing; and a start that the system launches then succeeds,
  -- and leaves the process running under the new process id.
  pub stop_process_lem :
      (name : Text) (sys : System) (m : Manager F) (p : Process F)
      → lookup name m.processes ≡ some p
      → p.state ≡ running
      → (p' : Process F) × (lookup name (stop_process name sys m).0.processes ≡ some p')
        × (p'.state ≡ stopped)
        × (p'.pid ≡ pos 0)
        × ((stop_process name sys m).2 ≡ none)
        × ((sys' : System)
            → stop_process name sys' (stop_process name sys m).0
              ≡ ((stop_process name sys m).0, [], some (not_running name)))
        × ((pid : ℤ) (now : ℕ)
            → Launched name pid (start_process name (launched pid) now (stop_process name sys m).0))
  unfolding finish_stop
  stop_process_lem name sys m p found run =
      let q = finish_stop (record p { state = stopping }) in
      let there = lookup-put name q m in
      let e = stop_process_eq name sys m p found (ap is_running run) in
      rw e (
        q,
        there,
        refl,
        refl,
        refl,
        λ sys'. stop_refused name sys' (put name q m) q there refl,
        λ pid now. start-Launched name pid now (put name q m) q there refl,
      )

-- A system on which a process that is gone stays gone: present at the first `k` of six looks.
abbrev pub looks : ℕ → ℕ → List Bool
looks zero k = []
looks (suc n) zero = false ∷ looks n zero
looks (suc n) (suc k) = true ∷ looks n k

-- An internal process gets SIGTERM, and SIGKILL exactly if it is still there at all six looks.
pub stop_signals_lem :
    (pid k : ℕ)
    → 0 < pid
    → stop_signals (pos pid) (looks 6 k)
      ≡ (if leb 6 k then sigterm ∷ sigkill ∷ [] else sigterm ∷ [])
unfolding stop_signals await_exit is_process_running
stop_signals_lem zero k h = elim h [ ]
stop_signals_lem (suc pid) k h = ground arith
