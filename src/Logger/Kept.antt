-- ===== src/Logger/Kept.antt =====
-- internal/logger/manager.go: which log files are kept.
use tmidb_core.Base.{ℕ, ◌-◌, not, length, drop}
use tmidb_core.Base.Dict
use tmidb_core.Base.Dict.{keep}
use tmidb_core.Logger.{RetentionPolicy}
use tmidb_core.Logger.Retention.{LogFiles, is_old}

-- The files that `policy` keeps: the last `limit` of them, as far as they are not too old.
abbrev pub recent : ℕ → RetentionPolicy → ℕ → LogFiles → LogFiles
recent now policy limit files =
    keep (λ path modified. not (is_old now policy.max_age modified))
      (drop (length files - limit) files)
