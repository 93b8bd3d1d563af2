-- ===== src/Logger.antt =====
-- internal/logger/manager.go: the logger's configuration, a component's writer and its files.
pub mod Writer
pub mod Policies
pub mod Retention
pub mod Rotation
pub mod Coherence
pub mod Kept
pub mod Trace
mod Tests
use tmidb_core.Base.{ℕ, Bool, List, Option, Text, ℤ}

-- `LogLevel` counts from `debug`.
pub data LogLevel : Type 0 where
  debug info warn error : LogLevel

-- `MaxFileSize` is in MB, a time in nanoseconds.
pub record LogConfig : Type 0 where
  pub base_dir : Text
  pub level : LogLevel
  pub max_file_size : ℤ
  pub max_files : ℤ
  pub max_age : ℤ
  pub compress : Bool
  pub buffer_size : ℤ
  pub flush_interval : ℤ
  pub console_output : Bool

pub record RetentionPolicy : Type 0 where
  pub component : Text
  pub max_file_size : ℤ
  pub max_files : ℤ
  pub max_age : ℤ
  pub compress : Bool
  pub enabled : Bool

-- The entries of a file, each followed by a line feed.
abbrev pub Content : Type 0
Content = List Text

-- The files `<component>.<i>.log`, or with `.gz` behind it for `true`.
abbrev pub Rotated : Type 0
Rotated = Bool → ℕ → Option Content

-- A writer: its file with what the buffer still holds, and the rotated files beside it.
pub record ProcessWriter : Type 0 where
  pub component : Text
  pub file : Content
  pub current_size : ℕ
  pub rotation_count : ℕ
  pub policy : RetentionPolicy
  pub rotated : Rotated

pub record Manager : Type 0 where
  pub config : LogConfig
  pub writers : List (Text × ProcessWriter)
  pub policies : List (Text × RetentionPolicy)
  pub streams : List (Text × Bool)
