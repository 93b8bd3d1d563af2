-- ===== src/Process/Frame.antt =====
-- internal/process/manager.go: an operation on one process, and the other processes.
use tmidb_core.Base.{◌≡◌, ◌≢◌, Option, Text, arith, text_eq_ne, ℕ}
use tmidb_core.Base.Dict
use tmidb_core.Base.Dict.{lookup}
use tmidb_core.Process.{Process, Manager}
use tmidb_core.Process.Control.{
  Launch, System, put, start_process, stop_process, restart_process, restart_external,
  restart_internal, restart_stopping,
}

module _ {F : Type 0} (name j : Text) (other : name ≢ j) where
  pub lookup-put_ne :
      (p : Process F) (m : Manager F) → lookup j (put name p m).processes ≡ lookup j m.processes
  lookup-put_ne p m =
      ground (arith, Dict.lookup-insert name j p m.processes, text_eq_ne name j other)

  start_process-frame :
      (outcome : Launch) (now : ℕ) (m : Manager F)
      → lookup j (start_process name outcome now m).0.processes ≡ lookup j m.processes
  unfolding start_process
  start_process-frame outcome now m = grind (arith, lookup-put_ne)

  pub stop_process-frame :
      (sys : System) (m : Manager F)
      → lookup j (stop_process name sys m).0.processes ≡ lookup j m.processes
  unfolding stop_process
  stop_process-frame sys m = grind (arith, lookup-put_ne)

  restart_stopping-frame :
      (sys : System) (p : Process F) (m : Manager F)
      → lookup j (restart_stopping name sys p m).0.processes ≡ lookup j m.processes
  unfolding restart_stopping
  restart_stopping-frame sys p m =
      grind (arith, lookup-put_ne, stop_process-frame, start_process-frame)

  restart_internal-frame :
      (sys : System) (p : Process F) (m : Manager F)
      → lookup j (restart_internal name sys p m).0.processes ≡ lookup j m.processes
  unfolding restart_internal
  restart_internal-frame sys p m = grind (arith, lookup-put_ne, start_process-frame)

  restart_external-frame :
      (restart : Text → Option Text) (p : Process F) (m : Manager F)
      → lookup j (restart_external restart name p m).0.processes ≡ lookup j m.processes
  unfolding restart_external
  restart_external-frame restart p m = grind (arith, lookup-put_ne)

  -- A restart of one process, on each of its ways, leaves the entry of every other name as it was.
  pub restart_process-frame :
      (sys : System) (m : Manager F)
      → lookup j (restart_process name sys m).0.processes ≡ lookup j m.processes
  unfolding restart_process
  restart_process-frame sys m =
      grind (arith, restart_stopping-frame, restart_internal-frame, restart_external-frame)
