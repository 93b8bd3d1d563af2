-- ===== src/Process/Tests.antt =====
-- internal/process/manager.go: managers and calls on which the theorems are run.
use tmidb_core.Base.{
  ℕ, ◌≡◌, refl, true, false, [], ◌∷◌, Option, none, some, Text, bytes, ℤ, pos, inl, text_eq,
}
use tmidb_core.Base.Dict.{lookup}
use tmidb_core.Process.{
  Process, ProcessConfig, ProcessState, ProcessType, Manager, running, stopped, error, internal,
  external, service, not_running,
}
use tmidb_core.Process.Control.{
  System, launched, register_process, start_process, stop_process, restart_process,
}
use tmidb_core.Process.Lifecycle.{Launched, stop_process_lem}
use tmidb_core.Process.Restart.{restart_process_running, restart_process_fails}
use tmidb_core.Process.Rest.{AllAtRest}
use tmidb_core.Process.Trace.{here, next, registering, starting_one, stopping_one, Reach-AtRest}

abbrev api : Text
api = bytes "api"

abbrev process_of : ProcessType → ProcessState → ℤ → Process ℕ
process_of type state pid = record {
  name = api;
  user = [];
  type = type;
  command = bytes "/bin/api";
  args = [];
  work_dir = [];
  env = [];
  state = state;
  pid = pid;
  start_time = 1;
  uptime = 0;
  restart_count = 0;
  auto_restart = true;
  max_restarts = pos 3;
  has_cmd = true;
  has_cleanup = true;
  cpu_usage = 0;
  memory_usage = 0;
  last_error = none;
}

abbrev manager_of : Process ℕ → Manager ℕ
manager_of p = record { processes = (api, p) ∷ []; external_service_restarter = none }

abbrev agreeing : Text → Option Text
agreeing name = none

abbrev sys : System
sys = record {
  polls = [];
  exited = true;
  delivered = true;
  alive = false;
  outcome = launched (pos 8);
  now = 9;
}

abbrev live : Process ℕ
live = process_of internal running (pos 7)

abbrev idle : Process ℕ
idle = process_of internal stopped (pos 0)

abbrev outside : Process ℕ
outside = process_of external running (pos 7)

abbrev asleep : Process ℕ
asleep = process_of service stopped (pos 0)

found : (p : Process ℕ) → lookup api (manager_of p).processes ≡ some p
unfolding lookup text_eq
found p = refl

stop_process_lem_example :
    (p' : Process ℕ) × (lookup api (stop_process api sys (manager_of live)).0.processes ≡ some p')
    × (p'.state ≡ stopped)
    × (p'.pid ≡ pos 0)
    × ((stop_process api sys (manager_of live)).2 ≡ none)
    × ((sys' : System)
        → stop_process api sys' (stop_process api sys (manager_of live)).0
          ≡ ((stop_process api sys (manager_of live)).0, [], some (not_running api)))
    × ((pid : ℤ) (now : ℕ)
        → Launched api pid
            (start_process api (launched pid) now (stop_process api sys (manager_of live)).0))
stop_process_lem_example = stop_process_lem api sys (manager_of live) live (found live) refl

restart_process_running_example :
    ((restart_process api sys (manager_of live)).2 ≡ none)
    × ((p' : Process ℕ) × (lookup api (restart_process api sys (manager_of live)).0.processes
          ≡ some p')
        × (p'.state ≡ running)
        × (p'.pid ≡ pos 8)
        × (p'.restart_count ≡ 1))
restart_process_running_example =
    restart_process_running api sys (manager_of live) live (pos 8) (found live) refl refl refl refl

restart_process_fails_example :
    ((restart_process api sys (manager_of asleep)).1 ≡ [])
    × ((restart_process api sys (manager_of asleep)).2 ≡ some (not_running api))
    × ((p' : Process ℕ) × (lookup api (restart_process api sys (manager_of asleep)).0.processes
          ≡ some p')
        × (p'.state ≡ error)
        × (p'.restart_count ≡ 1))
restart_process_fails_example =
    restart_process_fails api sys (manager_of asleep) asleep (found asleep) (λ e. cc)
      (refl, inl refl)

abbrev nobody : Manager ℕ
nobody = record { processes = []; external_service_restarter = none }

abbrev config : ProcessConfig
config = record {
  name = api;
  user = [];
  type = internal;
  command = bytes "/bin/api";
  args = [];
  work_dir = [];
  env = [];
  auto_restart = true;
  max_restarts = pos 3;
}

Reach-AtRest_example :
    AllAtRest
      (stop_process api sys
        (start_process api (launched (pos 8)) 9 (register_process 0 config nobody).0).0).0
Reach-AtRest_example = Reach-AtRest refl (
    next (next (next here (registering 0 config)) (starting_one api (launched (pos 8)) 9))
      (stopping_one api sys))
