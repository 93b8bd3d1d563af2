-- ===== src/Supervisor/Store.antt =====
-- internal/supervisor/supervisor.go: the configuration of the supervisor, and the messages that read
-- it and change it.
use tmidb_core.Base.{
  ℤ, pos, Bool, true, false, List, [], ◌∷◌, ◌++◌, Option, none, some, Text, bytes, is_empty,
  if◌then◌else◌,
}
use tmidb_core.Ipc.{Response, new_response}
use tmidb_core.Supervisor.{Config}
use tmidb_core.Supervisor.Keys.{
  Key, socket_path, postgresql_path, nats_path, seaweedfs_path, postgresql_port, nats_port,
  seaweedfs_port, startup_timeout, shutdown_timeout, log_dir, log_level, key_text, all_keys,
  switch_key, Shown, text, int, show_setting,
}

abbrev pub default_config : Config
default_config = record {
  socket_path = bytes "/tmp/tmidb-supervisor.sock";
  postgresql_path = bytes "/usr/local/bin/postgres-wrapper";
  nats_path = bytes "/usr/local/bin/nats-wrapper";
  seaweedfs_path = bytes "/usr/local/bin/weed-wrapper";
  postgresql_port = pos 5432;
  nats_port = pos 4222;
  seaweedfs_port = pos 9333;
  startup_timeout = pos 30000000000;
  shutdown_timeout = pos 10000000000;
  log_dir = bytes "./logs";
  log_level = bytes "INFO";
}

-- A value of a decoded JSON object, with the numbers of type float64 as an argument.
pub data Given (F : Type 0) : Type 0 where
  string : Text → Given F
  number : F → Given F
  other : Given F

-- What a handler answers with.
pub data ConfigReply : Type 0 where
  settings : List (Text × Shown) → ConfigReply
  updated : (needs_restart : Bool) (component : Text) → ConfigReply
  status : Text → ConfigReply
  changes : List (Text × Shown) → ConfigReply

unfoldable pub failure_reply : Text → Text → Response ConfigReply
failure_reply id error = new_response id false none error

unfoldable pub success_reply : Text → ConfigReply → Response ConfigReply
success_reply id reply = new_response id true (some reply) []

abbrev pub show_all : Config → List Key → List (Text × Shown)
show_all c [] = []
show_all c (k ∷ ks) = (key_text k, show_setting c k) ∷ show_all c ks

unfoldable pub handle_config_get : Text → Option Text → Config → Response ConfigReply
handle_config_get id none c = success_reply id (settings (show_all c all_keys))
handle_config_get id (some key) c =
    if is_empty key
    then success_reply id (settings (show_all c all_keys))
    else elim (switch_key key) [
      | none ↦ failure_reply id (bytes "unknown config key: " ++ key)
      | some k ↦ success_reply id (settings ((key, show_setting c k) ∷ []))
    ]

-- The values of `handleConfigList`; its types and descriptions are constants.
unfoldable pub handle_config_list : Text → Config → Response ConfigReply
handle_config_list id c = success_reply id (settings (show_all c all_keys))

module _ {F : Type 0} (to_int : F → ℤ) where
  -- A value must be a string: what the assertion makes of it.
  unfoldable pub set_string :
      Text → Text → (Text → Config) → Bool → Text → Given F → Config → Config × Response ConfigReply
  set_string id error apply restart component (string t) c =
      (apply t, success_reply id (updated restart component))
  set_string id error apply restart component (number n) c = (c, failure_reply id error)
  set_string id error apply restart component other c = (c, failure_reply id error)

  -- A value must be a number; `int(intVal)` is an argument.
  unfoldable pub set_port :
      Text → Text → (ℤ → Config) → Text → Given F → Config → Config × Response ConfigReply
  set_port id error apply component (string t) c = (c, failure_reply id error)
  set_port id error apply component (number n) c =
      (apply (to_int n), success_reply id (updated true component))
  set_port id error apply component other c = (c, failure_reply id error)

  unfoldable pub not_modifiable : Text → Text → Response ConfigReply
  not_modifiable id key =
      failure_reply id (bytes "config key '" ++ key ++ bytes "' is not modifiable")

  unfoldable pub set_key : Text → Key → Given F → Config → Config × Response ConfigReply
  set_key id log_level v c =
      set_string id (bytes "log_level must be a string") (λ t. record c { log_level = t }) false
        (bytes "logging") v c
  set_key id log_dir v c =
      set_string id (bytes "log_dir must be a string") (λ t. record c { log_dir = t }) true
        (bytes "logging") v c
  set_key id postgresql_port v c =
      set_port id (bytes "postgresql_port must be a number") (λ n. record c { postgresql_port = n })
        (bytes "postgresql") v c
  set_key id nats_port v c =
      set_port id (bytes "nats_port must be a number") (λ n. record c { nats_port = n })
        (bytes "nats") v c
  set_key id seaweedfs_port v c =
      set_port id (bytes "seaweedfs_port must be a number") (λ n. record c { seaweedfs_port = n })
        (bytes "seaweedfs") v c
  set_key id socket_path v c = (c, not_modifiable id (bytes "socket_path"))
  set_key id postgresql_path v c = (c, not_modifiable id (bytes "postgresql_path"))
  set_key id nats_path v c = (c, not_modifiable id (bytes "nats_path"))
  set_key id seaweedfs_path v c = (c, not_modifiable id (bytes "seaweedfs_path"))
  set_key id startup_timeout v c = (c, not_modifiable id (bytes "startup_timeout"))
  set_key id shutdown_timeout v c = (c, not_modifiable id (bytes "shutdown_timeout"))

  -- A missing value and a null are `none`.
  unfoldable pub handle_config_set :
      Text → Option Text → Option (Given F) → Config → Config × Response ConfigReply
  handle_config_set id none value c = (c, failure_reply id (bytes "key parameter required"))
  handle_config_set id (some key) none c = (c, failure_reply id (bytes "value parameter required"))
  handle_config_set id (some key) (some value) c = elim (switch_key key) [
    | none ↦ (c, not_modifiable id key)
    | some k ↦ set_key id k value c
  ]

  -- One entry of an import: other keys, and values of another type, are passed over.
  unfoldable pub import_text :
      Text → (Text → Config) → Given F → Config → Config × List (Text × Shown)
  import_text key apply (string t) c = (apply t, (key, text t) ∷ [])
  import_text key apply (number n) c = (c, [])
  import_text key apply other c = (c, [])

  unfoldable pub import_port : Text → (ℤ → Config) → Given F → Config → Config × List (Text × Shown)
  import_port key apply (string t) c = (c, [])
  import_port key apply (number n) c = (apply (to_int n), (key, int (to_int n)) ∷ [])
  import_port key apply other c = (c, [])

  unfoldable pub import_key : Text → Key → Given F → Config → Config × List (Text × Shown)
  import_key key log_level v c = import_text key (λ t. record c { log_level = t }) v c
  import_key key log_dir v c = import_text key (λ t. record c { log_dir = t }) v c
  import_key key postgresql_port v c = import_port key (λ n. record c { postgresql_port = n }) v c
  import_key key nats_port v c = import_port key (λ n. record c { nats_port = n }) v c
  import_key key seaweedfs_port v c = import_port key (λ n. record c { seaweedfs_port = n }) v c
  import_key key _ v c = (c, [])

  unfoldable pub import_entry : Text → Given F → Config → Config × List (Text × Shown)
  import_entry key v c = elim (switch_key key) [ none ↦ (c, []) | some k ↦ import_key key k v c ]

  -- The entries in the order in which the loop meets them.
  unfoldable pub import_entries : List (Text × Given F) → Config → Config × List (Text × Shown)
  import_entries [] c = (c, [])
  import_entries ((key, v) ∷ m) c =
      let first = import_entry key v c in
      let rest = import_entries m first.0 in (rest.0, first.1 ++ rest.1)

  unfoldable pub handle_config_import :
      Text → Option (List (Text × Given F)) → Config → Config × Response ConfigReply
  handle_config_import id none c = (c, failure_reply id (bytes "config data required"))
  handle_config_import id (some m) c =
      let done = import_entries m c in (done.0, success_reply id (changes done.1))

unfoldable pub reset_key : Key → Config → Option Config
reset_key log_level c = some (record c { log_level = default_config.log_level })
reset_key log_dir c = some (record c { log_dir = default_config.log_dir })
reset_key postgresql_port c = some (record c { postgresql_port = default_config.postgresql_port })
reset_key nats_port c = some (record c { nats_port = default_config.nats_port })
reset_key seaweedfs_port c = some (record c { seaweedfs_port = default_config.seaweedfs_port })
reset_key startup_timeout c = some (record c { startup_timeout = default_config.startup_timeout })
reset_key shutdown_timeout c =
    some (record c { shutdown_timeout = default_config.shutdown_timeout })
reset_key _ c = none

unfoldable pub reset_named : Text → Text → Config → Config × Response ConfigReply
reset_named id key c =
    let unknown : Config × Response ConfigReply =
      (c, failure_reply id (bytes "unknown config key: " ++ key)) in
    elim (switch_key key) [
      | none ↦ unknown
      | some k ↦ elim (reset_key k c) [
        | none ↦ unknown
        | some d ↦ (
          d,
          success_reply id (status (bytes "config key '" ++ key ++ bytes "' reset to default")),
        )
      ]
    ]

unfoldable pub handle_config_reset :
    Text → Option Text → Bool → Config → Config × Response ConfigReply
handle_config_reset id key all c =
    if all
    then (default_config, success_reply id (status (bytes "all config reset to defaults")))
    else elim key [
      | none ↦ (c, failure_reply id (bytes "key parameter required when not using --all"))
      | some t ↦
          if is_empty t
          then (c, failure_reply id (bytes "key parameter required when not using --all"))
          else reset_named id t c
    ]
