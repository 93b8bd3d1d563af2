-- ===== src/Process/Control.antt =====
-- internal/process/manager.go: registering, starting, stopping, restarting and attaching a process.
-- What the operating system answers is an argument of each operation.
use tmidb_core.Base.{
  ℕ, zero, suc, ◌+◌, Bool, true, false, ◌&&◌, ◌||◌, List, [], ◌∷◌, ◌++◌, map, Option, none, some,
  if◌then◌else◌, Text, bytes, is_empty, ℤ, pos, ltb_int,
}
use tmidb_core.Base.Dict
use tmidb_core.Process.{
  Process, ProcessConfig, Manager, Error, running, stopped, starting, stopping, error, restarting,
  already_registered, not_found, already_running, not_running, already_restarting, pid_not_running,
  system, external_failed, stdout_pipe, stderr_pipe, start_failed, restart_external_failed,
  stop_failed, is_running, is_starting, is_restarting, is_internal, is_external,
}

-- How the system answers `StdoutPipe`, `StderrPipe` and `Start`, up to the first failure.
pub data Launch : Type 0 where
  no_stdout : Text → Launch
  no_stderr : Text → Launch
  no_start : Text → Launch
  launched : ℤ → Launch

-- What the system answers while a process is stopped and started.
pub record System : Type 0 where
  pub polls : List Bool  -- whether /proc/<pid> is there, at each look of `StopProcess`
  pub exited : Bool  -- whether an external process exits within ten seconds of SIGTERM
  pub delivered : Bool  -- whether the SIGTERM of `RestartProcess` could be sent
  pub alive : Bool  -- whether /proc/<pid> is there three seconds later
  pub outcome : Launch
  pub now : ℕ

pub data Signal : Type 0 where
  sigterm sigkill : Signal

-- The program that `StartProcess` runs, and its arguments.
unfoldable pub command_of : Text → Text → List Text → Text × List Text
command_of user command args =
    if is_empty user
    then (command, args)
    else (bytes "runuser", bytes "-u" ∷ user ∷ bytes "--" ∷ command ∷ args)

-- Its environment: what the manager has itself is left alone if the process brings none.
unfoldable pub environment_of : List Text → List (Text × Text) → Option (List Text)
environment_of own [] = none
environment_of own (e ∷ env) = some (own ++ map (λ (k, v). k ++ (bytes "=" ++ v)) (e ∷ env))

-- `isProcessRunning`: `alive` is whether /proc/<pid> exists.
unfoldable pub is_process_running : ℤ → Bool → Bool
is_process_running pid alive = ltb_int (pos 0) pid && alive

-- The five polls of `StopProcess`, a second apart, each with the answer of /proc: what is left of the
-- answers once the process is gone or five seconds have passed.
unfoldable pub await_exit : ℕ → ℤ → List Bool → List Bool
await_exit zero pid polls = polls
await_exit (suc n) pid [] = []
await_exit (suc n) pid (alive ∷ polls) = elim (is_process_running pid alive) [
  | true ↦ await_exit n pid polls
  | false ↦ polls
]

-- The signals that `StopProcess` sends to an internal process.
unfoldable pub stop_signals : ℤ → List Bool → List Signal
stop_signals pid polls = elim (await_exit 5 pid polls) [
  | [] ↦ sigterm ∷ []
  | alive ∷ _ ↦ if is_process_running pid alive then sigterm ∷ sigkill ∷ [] else sigterm ∷ []
]

-- Those that it sends to the command of any other process, if it was started here.
unfoldable pub command_signals : Bool → Bool → List Signal
command_signals has_cmd exited =
    if has_cmd then (if exited then sigterm ∷ [] else sigterm ∷ sigkill ∷ []) else []

-- Those that `RestartProcess` sends to an internal process.
unfoldable pub restart_signals : ℤ → System → List Signal
restart_signals pid sys =
    if sys.delivered && is_process_running pid sys.alive
    then sigterm ∷ sigkill ∷ []
    else sigterm ∷ []

module _ {F : Type 0} where
  unfoldable pub register_process : F → ProcessConfig → Manager F → Manager F × Option Error
  register_process no_cpu config m = elim (Dict.lookup config.name m.processes) [
    | some _ ↦ (m, some (already_registered config.name))
    | none ↦ (
      record m {
        processes =
            Dict.insert config.name
              (record {
                name = config.name;
                user = config.user;
                type = config.type;
                command = config.command;
                args = config.args;
                work_dir = config.work_dir;
                env = config.env;
                state = stopped;
                pid = pos 0;
                start_time = 0;
                uptime = 0;
                restart_count = 0;
                auto_restart = config.auto_restart;
                max_restarts = config.max_restarts;
                has_cmd = false;
                has_cleanup = true;
                cpu_usage = no_cpu;
                memory_usage = 0;
                last_error = none;
              })
              m.processes;
      },
      none,
    )
  ]

  -- The process under a name is given anew: `m.processes[name]` is a pointer that is written through.
  abbrev pub put : Text → Process F → Manager F → Manager F
  put name p m = record m { processes = Dict.insert name p m.processes }

  -- The rest of `StartProcess` once the state is `starting`.
  unfoldable pub launch : Launch → ℕ → Process F → Process F × Option Error
  launch (no_stdout e) now p =
      (record p { state = error; last_error = some (stdout_pipe e) }, some (system e))
  launch (no_stderr e) now p =
      (record p { state = error; last_error = some (stderr_pipe e) }, some (system e))
  launch (no_start e) now p = (
    record p { state = error; has_cmd = false; last_error = some (start_failed e) },
    some (system e),
  )
  launch (launched pid) now p = (
    record p { state = running; has_cmd = true; pid = pid; start_time = now; last_error = none },
    none,
  )

  unfoldable pub start_process : Text → Launch → ℕ → Manager F → Manager F × Option Error
  unfolding launch
  start_process name outcome now m = elim (Dict.lookup name m.processes) [
    | none ↦ (m, some (not_found name))
    | some p ↦
        if is_running p.state || is_starting p.state
        then (m, some (already_running name))
        else let (p', e) = launch outcome now (record p { state = starting }) in (put name p' m, e)
  ]

  -- The last lines of `StopProcess`, after the signals and the wait.
  unfoldable pub finish_stop : Process F → Process F
  finish_stop p = record p { state = stopped; pid = pos 0; uptime = 0 }

  -- Between the two lines of the state the process is `stopping`. The result has the signals sent.
  unfoldable pub stop_process : Text → System → Manager F → Manager F × List Signal × Option Error
  unfolding finish_stop
  stop_process name sys m = elim (Dict.lookup name m.processes) [
    | none ↦ (m, [], some (not_found name))
    | some p ↦
        if is_running p.state
        then (
          put name (finish_stop (record p { state = stopping })) m,
          (if is_internal p.type && ltb_int (pos 0) p.pid
              then stop_signals p.pid sys.polls
              else command_signals p.has_cmd sys.exited),
          none,
        )
        else (m, [], some (not_running name))
  ]

  unfoldable pub set_external_service_restarter : (Text → Option Text) → Manager F → Manager F
  set_external_service_restarter restart m = record m { external_service_restarter = some restart }

  -- The three ways of `RestartProcess` once the state is `restarting`, which `p` shows.
  unfoldable pub restart_external :
      (Text → Option Text) → Text → Process F → Manager F → Manager F × List Signal × Option Error
  restart_external restart name p m = elim (restart name) [
    | some e ↦ (
      put name (record p { state = error; last_error = some (restart_external_failed e) }) m,
      [],
      some (external_failed name e),
    )
    | none ↦ (put name p m, [], none)
  ]

  unfoldable pub restart_internal :
      Text → System → Process F → Manager F → Manager F × List Signal × Option Error
  restart_internal name sys p m =
      let (m', e) =
        start_process name sys.outcome sys.now
          (put name (record p { state = stopped; pid = pos 0 }) m) in
      (m', restart_signals p.pid sys, e)

  unfoldable pub restart_stopping :
      Text → System → Process F → Manager F → Manager F × List Signal × Option Error
  restart_stopping name sys p m =
      let (m', signals, e) = stop_process name sys (put name p m) in
      elim e [
        | none ↦ let (m'', e') = start_process name sys.outcome sys.now m' in (m'', signals, e')
        | some e ↦ (
          put name (record p { state = error; last_error = some (stop_failed e) }) m',
          signals,
          some e,
        )
      ]

  unfoldable pub restart_process :
      Text → System → Manager F → Manager F × List Signal × Option Error
  restart_process name sys m = elim (Dict.lookup name m.processes) [
    | none ↦ (m, [], some (not_found name))
    | some before ↦
        if is_restarting before.state
        then (m, [], some (already_restarting name))
        else let p = record before {
          state = restarting;
          restart_count = before.restart_count + 1;
        } in
          let stop_first =
            if is_internal before.type && (is_running before.state && ltb_int (pos 0) before.pid)
            then restart_internal name sys p m
            else restart_stopping name sys p m in
          if is_external before.type
          then elim m.external_service_restarter [
            | some restart ↦ restart_external restart name p m
            | none ↦ stop_first
          ]
          else stop_first
  ]

  unfoldable pub attach_process : Text → ℤ → Bool → ℕ → Manager F → Manager F × Option Error
  attach_process name pid alive now m = elim (Dict.lookup name m.processes) [
    | none ↦ (m, some (not_found name))
    | some p ↦
        if is_running p.state
        then (m, some (already_running name))
        else if is_process_running pid alive
        then (
          put name
              (record p {
                pid = pid;
                start_time = now;
                state = running;
                last_error = none;
                has_cmd = false;
              })
              m,
          none,
        )
        else (m, some (pid_not_running pid))
  ]
