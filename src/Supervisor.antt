-- ===== src/Supervisor.antt =====
-- internal/supervisor/supervisor.go: the configuration of the supervisor and its handlers.
pub mod Keys
pub mod Store
pub mod Settings
pub mod Import
pub mod Validate
pub mod Recent
pub mod Ordering
pub mod Logged
pub mod Newest
pub mod Copy
pub mod Stop
pub mod Worker
pub mod Transfer
pub mod Session
pub mod Orderly
pub mod Writes
pub mod Settled
mod RecentTests
mod Tests
use tmidb_core.Base.{ℤ, pos, Bool, List, [], ◌∷◌, Option, none, some, Text, bytes}

-- A duration is its number of nanoseconds.
pub record Config : Type 0 where
  pub socket_path : Text
  pub postgresql_path : Text
  pub nats_path : Text
  pub seaweedfs_path : Text
  pub postgresql_port : ℤ
  pub nats_port : ℤ
  pub seaweedfs_port : ℤ
  pub startup_timeout : ℤ
  pub shutdown_timeout : ℤ
  pub log_dir : Text
  pub log_level : Text
