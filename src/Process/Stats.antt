-- ===== src/Process/Stats.antt =====
-- internal/process/manager.go: the reports on the processes, and the update of their statistics.
use tmidb_core.Base.{
  ℕ, ◌-◌, Bool, true, false, not, ◌&&◌, ◌||◌, List, map, Option, none, some, if◌then◌else◌, Text, ℤ,
  pos, negsuc, ltb_int, ◌==◌,
}
use tmidb_core.Base.Dict
use tmidb_core.Process.{
  Process, ProcessState, ProcessType, Manager, Error, running, stopped, error, internal, external,
  service, not_found, is_running,
}

pub record ProcessInfo (F : Type 0) : Type 0 where
  pub name : Text
  pub type : ProcessType
  pub status : ProcessState
  pub pid : ℤ
  pub uptime : ℕ
  pub memory : ℕ
  pub cpu : F
  pub enabled : Bool
  pub logs : Bool
  pub start_time : ℕ

-- What the supervisor's callbacks answer; a status is that of a system service.
pub data ServiceStatus : Type 0 where
  active inactive failed unknown : ServiceStatus

pub record Probes (F : Type 0) : Type 0 where
  pub memory_of : ℤ → ℕ
  pub cpu_of : ℤ → F
  pub status_of : Text → ServiceStatus
  pub pid_of : Text → ℤ

abbrev pub is_service : ProcessType → Bool
is_service internal = false
is_service external = true
is_service service = true

abbrev status_state : ServiceStatus → ProcessState → ProcessState
status_state active s = running
status_state inactive s = stopped
status_state failed s = error
status_state unknown s = s

abbrev is_zero : ℤ → Bool
is_zero (pos n) = n == 0
is_zero (negsuc n) = false

module _ {F : Type 0} where
  unfoldable pub uptime_of : ℕ → Process F → ℕ
  uptime_of now p = if is_running p.state && not (p.start_time == 0) then now - p.start_time else 0

  unfoldable pub info_of : ℕ → Process F → ProcessInfo F
  info_of now p = record {
    name = p.name;
    type = p.type;
    status = p.state;
    pid = p.pid;
    uptime = uptime_of now p;
    memory = p.memory_usage;
    cpu = p.cpu_usage;
    enabled = p.auto_restart;
    logs = true;
    start_time = p.start_time;
  }

  unfoldable pub get_process_list : ℕ → Manager F → List (ProcessInfo F)
  get_process_list now m = map (λ e. info_of now e.1) m.processes

  unfoldable pub get_process_status : Text → ℕ → Manager F → Option (ProcessInfo F) × Option Error
  get_process_status name now m = elim (Dict.lookup name m.processes) [
    | none ↦ (none, some (not_found name))
    | some p ↦ (some (info_of now p), none)
  ]

  -- The body of the loop of `updateProcessStats`.
  unfoldable pub update_uptime : ℕ → Process F → Process F
  update_uptime now p =
      if not (is_running p.state) || is_zero p.pid
      then p
      else record p { uptime = now - p.start_time }

  -- The body of the loop of `UpdateProcessStats`. `no_cpu` is 0.0.
  unfoldable pub update_stats : F → Probes F → ℕ → Process F → Process F
  update_stats no_cpu probes now p =
      let measured = record p {
        uptime = uptime_of now p;
        memory_usage = if ltb_int (pos 0) p.pid then probes.memory_of p.pid else 0;
        cpu_usage = if ltb_int (pos 0) p.pid then probes.cpu_of p.pid else no_cpu;
      } in
      if is_service p.type
      then (let s = status_state (probes.status_of p.name) p.state in
          let pid = probes.pid_of p.name in
          if is_running s && (is_zero p.pid && ltb_int (pos 0) pid)
          then record measured {
            state = s;
            pid = pid;
            memory_usage = probes.memory_of pid;
            cpu_usage = probes.cpu_of pid;
          }
          else record measured { state = s })
      else measured

  unfoldable pub update_process_stats : F → Probes F → ℕ → Manager F → Manager F
  update_process_stats no_cpu probes now m = record m {
    processes = map (λ (k, p). (k, update_stats no_cpu probes now p)) m.processes;
  }
