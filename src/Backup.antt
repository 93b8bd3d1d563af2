-- ===== src/Backup.antt =====
-- internal/supervisor/supervisor.go: backups, their archives and their progress.
pub mod Archive
pub mod Perform
pub mod Written
pub mod Roundtrip
pub mod Placed
pub mod Files
pub mod Verify
pub mod Verified
pub mod Damaged
pub mod Table
pub mod Requests
pub mod Listing
pub mod Found
mod Tests
use tmidb_core.Base.{ℕ, Bool, List, Option, Text}

-- An entry of an archive; only a regular file has a content.
pub record Entry : Type 0 where
  pub name : Text
  pub regular : Bool
  pub content : Text

-- What a directory walk finds, by relative path and with the content of regular files, and the
-- error that ends it early.
pub record Walk : Type 0 where
  pub found : List (Text × Option Text)
  pub failure : Option Text

-- What a call of another program or of a library gives.
pub data Made : Type 0 where
  ok : Text → Made
  error : Text → Made

-- What a backup reads: the output of `pg_dump`, the configuration as JSON, the log directory, and
-- the data directory, if it is there.
pub record Site : Type 0 where
  pub dump : Made
  pub config_json : Made
  pub logs : Walk
  pub data_dir : Option Walk

pub data Status : Type 0 where
  creating : Status
  restoring : Status
  completed : Status
  failed : Status

-- A percentage as it is computed: `float64(i) / float64(n) * 100`, or 100.
pub data Percent : Type 0 where
  part : (i n : ℕ) → Percent
  whole : Percent

-- `BackupProgress` and `RestoreProgress`
pub record Progress : Type 0 where
  pub id : Text
  pub status : Status
  pub percent : Percent
  pub current : Text
  pub start_time : ℕ
  pub end_time : Option ℕ
  pub error : Text

pub record BackupInfo : Type 0 where
  pub id : Text
  pub name : Text
  pub path : Text
  pub size : ℕ
  pub created : ℕ
  pub components : List Text
  pub compressed : Bool
  pub checksum : Text
  pub status : Status
