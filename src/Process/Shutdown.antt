-- ===== src/Process/Shutdown.antt =====
-- internal/process/manager.go: the stop of the manager.
use tmidb_core.Base.{◌≡◌, Bool, false, List, [], ◌∷◌, some, if◌then◌else◌, Text}
use tmidb_core.Base.Dict.{lookup}
use tmidb_core.Process.{Process, Manager, is_running}
use tmidb_core.Process.Control.{System, Signal, stop_process}

module _ {F : Type 0} where
  -- The goroutines of `Stop`, one for each process, in the order in which they get to it. The
  -- error of `StopProcess` is dropped; the result has the signals sent to each.
  unfoldable pub stop_all :
      List Text → (Text → System) → Manager F → Manager F × List (Text × List Signal)
  stop_all [] sys m = (m, [])
  stop_all (name ∷ order) sys m =
      let (m', signals, e) = stop_process name (sys name) m in
      let (m'', rest) = stop_all order sys m' in (m'', (name, signals) ∷ rest)

  abbrev killed : List (Text × Process F) → List Text
  killed [] = []
  killed ((key, p) ∷ rest) = if p.has_cmd then p.name ∷ killed rest else killed rest

  -- The processes that get a SIGKILL.
  unfoldable pub force_stop_all : Manager F → List Text
  force_stop_all m = killed m.processes

  -- `m.cancel()`: the context of each command stems from the manager's, and to cancel it kills the
  -- command. The watchers end too, and report nothing more.
  unfoldable pub cancel_all : Manager F → List Text
  cancel_all m = killed m.processes

  -- `Stop`: `in_time` is whether all processes have been stopped within thirty seconds. The stops go
  -- on to their end after the kills too. The result has the processes that the context kills, the signals, and those that are killed then.
  unfoldable pub stop_manager :
      List Text
      → (Text → System)
      → Bool
      → Manager F
      → Manager F × List Text × List (Text × List Signal) × List Text
  unfolding force_stop_all cancel_all
  stop_manager order sys in_time m =
      let (m', signals) = stop_all order sys m in
      (m', cancel_all m, signals, if in_time then [] else force_stop_all m')

  -- The process under the name, if there is one, does not run.
  abbrev pub IsQuiet : Text → Manager F → Type 0
  IsQuiet j m = (p : Process F) → lookup j m.processes ≡ some p → is_running p.state ≡ false
