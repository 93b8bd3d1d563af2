-- ===== src/Process.antt =====
-- internal/process/manager.go: the registered processes and the manager's state. A time is the
-- nanoseconds since Go's zero time; `F` is the type of the CPU share, a float64.
pub mod Control
pub mod Watch
pub mod Stats
pub mod Handlers
pub mod Frame
pub mod Lifecycle
pub mod Restart
pub mod Faults
pub mod Rest
pub mod Trace
pub mod Answers
pub mod Shutdown
mod Tests
use tmidb_core.Base.{
  ℕ, ◌+◌, ◌%◌, ◌^◌, Bool, true, false, List, [], Option, none, some, Text, ℤ, pos,
}

pub data ProcessState : Type 0 where
  running stopped starting stopping error restarting : ProcessState

pub data ProcessType : Type 0 where
  internal external service : ProcessType

-- What the methods return where they fail.
pub data Error : Type 0 where
  already_registered : Text → Error
  not_found : Text → Error
  already_running : Text → Error
  not_running : Text → Error
  already_restarting : Text → Error
  pid_not_running : ℤ → Error
  system : Text → Error
  external_failed : Text → Text → Error

-- The texts of `LastError`; the empty text is `none` there.
pub data Failure : Type 0 where
  stdout_pipe : Text → Failure
  stderr_pipe : Text → Failure
  start_failed : Text → Failure
  restart_external_failed : Text → Failure
  stop_failed : Error → Failure
  wait_failed : Text → Failure
  exited_unexpectedly : Failure

pub record ProcessConfig : Type 0 where
  pub name : Text
  pub user : Text
  pub type : ProcessType
  pub command : Text
  pub args : List Text
  pub work_dir : Text
  pub env : List (Text × Text)
  pub auto_restart : Bool
  pub max_restarts : ℤ

-- `has_cmd` is `cmd != nil && cmd.Process != nil`, a command that was started, and `has_cleanup` is `cleanup != nil`. The restart count, an `int` that
-- starts at 0 and grows by 1, is a natural number.
pub record Process (F : Type 0) : Type 0 where
  pub name : Text
  pub user : Text
  pub type : ProcessType
  pub command : Text
  pub args : List Text
  pub work_dir : Text
  pub env : List (Text × Text)
  pub state : ProcessState
  pub pid : ℤ
  pub start_time : ℕ
  pub uptime : ℕ
  pub restart_count : ℕ
  pub auto_restart : Bool
  pub max_restarts : ℤ
  pub has_cmd : Bool
  pub has_cleanup : Bool
  pub cpu_usage : F
  pub memory_usage : ℕ
  pub last_error : Option Failure

-- The callback that restarts an external service returns the text of its error.
pub record Manager (F : Type 0) : Type 0 where
  pub processes : List (Text × Process F)
  pub external_service_restarter : Option (Text → Option Text)

abbrev pub is_running : ProcessState → Bool
is_running running = true
is_running _ = false

abbrev pub is_restarting : ProcessState → Bool
is_restarting restarting = true
is_restarting _ = false

abbrev pub is_stopping : ProcessState → Bool
is_stopping stopping = true
is_stopping _ = false

abbrev pub is_starting : ProcessState → Bool
is_starting starting = true
is_starting _ = false

abbrev pub is_internal : ProcessType → Bool
is_internal internal = true
is_internal _ = false

abbrev pub is_external : ProcessType → Bool
is_external external = true
is_external _ = false
