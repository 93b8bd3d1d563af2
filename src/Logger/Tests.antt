-- ===== src/Logger/Tests.antt =====
-- internal/logger/manager.go: writers, files and calls on which the theorems are run.

use tmidb_core.Base.{
  zero, suc, ◌+◌, ◌-◌, ◌≤◌, ◌≡◌, ◌⊎◌, refl, true, false, [], ◌∷◌, Option, none, some, Text, bytes,
  pos, arith,
}
use tmidb_core.Base.Dict
use tmidb_core.Logger.{LogLevel, info, LogConfig, RetentionPolicy, ProcessWriter, Rotated}
use tmidb_core.Logger.Writer.{Disk, compressed, size_limit, rotate, write}
use tmidb_core.Logger.Policies.{new_manager, opened, set_log_policy, write_log}
use tmidb_core.Logger.Rotation.{shifted, rotate_lem, write_bounds, write_lem}
use tmidb_core.Logger.Coherence.{IsCoherent}
use tmidb_core.Logger.Retention.{LogFiles}
use tmidb_core.Logger.Trace.{here, next, logging, setting_policy, Reach-IsCoherent}

abbrev api : Text
api = bytes "api"

abbrev policy : RetentionPolicy
policy = record {
  component = api;
  max_file_size = pos 1;
  max_files = pos 2;
  max_age = pos 10;
  compress = true;
  enabled = true;
}

abbrev no_files : Rotated
no_files c k = none

abbrev writer : ProcessWriter
writer = record {
  component = api;
  file = bytes "old" ∷ [];
  current_size = 4;
  rotation_count = 0;
  policy = policy;
  rotated = no_files;
}

abbrev disk : Disk
disk = record {
  flush_fails = false;
  close_fails = false;
  compression = compressed;
  open_fails = false;
  write_fails = false;
  newline_fails = false;
  flush_due = false;
  last_flush_fails = false;
}

rotate_lem_example :
    let r = rotate disk writer in
    (r.1 ≡ none)
    × (r.0.file ≡ [])
    × (r.0.current_size ≡ 0)
    × (r.0.rotated true zero ≡ some (bytes "old" ∷ []))
    × (r.0.rotated true (suc 0) ≡ shifted (2 - 1) (no_files true) (suc 0))
    × (r.0.rotated false 0 ≡ none)
rotate_lem_example = rotate_lem disk writer 0 (refl, refl, refl, refl)

write_bounds_example : (write disk (bytes "new") writer).0.current_size ≤ 1048576 + 1
unfolding size_limit
write_bounds_example =
    write_bounds disk (bytes "new") writer 1048576 refl (omega arith) (omega arith)

write_lem_example :
    ((write disk (bytes "new") writer).1 ≡ none)
    × (((write disk (bytes "new") writer).0.file ≡ bytes "old" ∷ bytes "new" ∷ [])
        ⊎ (((write disk (bytes "new") writer).0.file ≡ bytes "new" ∷ [])
            × ((write disk (bytes "new") writer).0.rotated true zero ≡ some (bytes "old" ∷ []))))
write_lem_example = write_lem disk (bytes "new") writer ((refl, refl, refl, refl), refl, refl, refl)

abbrev files : LogFiles
files = (bytes "a", 1) ∷ (bytes "b", 95) ∷ (bytes "c", 99) ∷ []

abbrev config : LogConfig
config = record {
  base_dir = bytes "logs";
  level = info;
  max_file_size = pos 100;
  max_files = pos 10;
  max_age = pos 1000;
  compress = true;
  buffer_size = pos 8192;
  flush_interval = pos 5;
  console_output = false;
}

abbrev marshal : Text → LogLevel → Text → Option Text
marshal component level message = some message

Reach-IsCoherent_example : IsCoherent (
    set_log_policy api policy
      (write_log marshal api info (bytes "up") (opened [] 0 no_files) disk (new_manager config)).0)
Reach-IsCoherent_example = Reach-IsCoherent marshal config (
    next (next here (logging api info (bytes "up") (opened [] 0 no_files) disk))
      (setting_policy api policy))
