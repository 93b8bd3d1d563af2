-- ===== src/Supervisor/Keys.antt =====
-- internal/supervisor/supervisor.go: the names of the settings, and their values as responses show them.
use tmidb_core.Base.{ℤ, List, [], ◌∷◌, Option, none, some, Text, bytes, text_eq, if◌then◌else◌}
use tmidb_core.Supervisor.{Config}

-- The names of the settings, which the handlers switch on.
pub data Key : Type 0 where
  socket_path : Key
  postgresql_path : Key
  nats_path : Key
  seaweedfs_path : Key
  postgresql_port : Key
  nats_port : Key
  seaweedfs_port : Key
  startup_timeout : Key
  shutdown_timeout : Key
  log_dir : Key
  log_level : Key

unfoldable pub key_text : Key → Text
key_text socket_path = bytes "socket_path"
key_text postgresql_path = bytes "postgresql_path"
key_text nats_path = bytes "nats_path"
key_text seaweedfs_path = bytes "seaweedfs_path"
key_text postgresql_port = bytes "postgresql_port"
key_text nats_port = bytes "nats_port"
key_text seaweedfs_port = bytes "seaweedfs_port"
key_text startup_timeout = bytes "startup_timeout"
key_text shutdown_timeout = bytes "shutdown_timeout"
key_text log_dir = bytes "log_dir"
key_text log_level = bytes "log_level"

abbrev pub all_keys : List Key
all_keys =
    socket_path ∷ postgresql_path ∷ nats_path ∷ seaweedfs_path ∷ postgresql_port ∷ nats_port
    ∷ seaweedfs_port ∷ startup_timeout ∷ shutdown_timeout ∷ log_dir ∷ log_level ∷ []

unfoldable pub find_key : Text → List Key → Option Key
find_key t [] = none
find_key t (k ∷ ks) = if text_eq t (key_text k) then some k else find_key t ks

-- `switch key`, with `none` for its default
unfoldable pub switch_key : Text → Option Key
switch_key t = find_key t all_keys

-- A value as a response shows it. `Duration.String` is not written out.
pub data Shown : Type 0 where
  text : Text → Shown
  int : ℤ → Shown
  duration : ℤ → Shown

unfoldable pub show_setting : Config → Key → Shown
show_setting c socket_path = text c.socket_path
show_setting c postgresql_path = text c.postgresql_path
show_setting c nats_path = text c.nats_path
show_setting c seaweedfs_path = text c.seaweedfs_path
show_setting c postgresql_port = int c.postgresql_port
show_setting c nats_port = int c.nats_port
show_setting c seaweedfs_port = int c.seaweedfs_port
show_setting c startup_timeout = duration c.startup_timeout
show_setting c shutdown_timeout = duration c.shutdown_timeout
show_setting c log_dir = text c.log_dir
show_setting c log_level = text c.log_level
