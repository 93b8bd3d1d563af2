-- ===== src/Logger/Policies.antt =====
-- internal/logger/manager.go: the policies, the streams and `WriteLog`. A policy is a value here: the
-- source shares a pointer, and sets its component.
use tmidb_core.Base.{ℕ, Bool, true, false, [], Option, none, some, ltb, if◌then◌else◌, Text}
use tmidb_core.Base.Dict
use tmidb_core.Logger.{
  LogLevel, debug, info, warn, error, LogConfig, RetentionPolicy, ProcessWriter, Manager, Content,
  Rotated,
}
use tmidb_core.Logger.Writer.{Disk, WriteError, write}

unfoldable pub new_manager : LogConfig → Manager
new_manager config = record { config = config; writers = []; policies = []; streams = [] }

abbrev default_policy : Text → LogConfig → RetentionPolicy
default_policy component config = record {
  component = component;
  max_file_size = config.max_file_size;
  max_files = config.max_files;
  max_age = config.max_age;
  compress = config.compress;
  enabled = true;
}

unfoldable pub get_log_policy : Text → Manager → RetentionPolicy
get_log_policy component m = elim (Dict.lookup component m.policies) [
  | some policy ↦ policy
  | none ↦ default_policy component m.config
]

unfoldable pub set_log_policy : Text → RetentionPolicy → Manager → Manager
set_log_policy component policy m =
    let p = record policy { component = component } in
    record m {
      policies = Dict.insert component p m.policies;
      writers = elim (Dict.lookup component m.writers) [
        | none ↦ m.writers
        | some w ↦ Dict.insert component (record w { policy = p }) m.writers
      ];
    }

unfoldable pub enable_stream : Text → Manager → Manager
enable_stream component m = record m { streams = Dict.insert component true m.streams }

unfoldable pub disable_stream : Text → Manager → Manager
disable_stream component m = record m { streams = Dict.insert component false m.streams }

-- A missing key of a map of bool is false.
unfoldable pub is_streaming : Text → Manager → Bool
is_streaming component m = elim (Dict.lookup component m.streams) [ none ↦ false | some b ↦ b ]

-- What the file system answers to `createWriter`: the files that are there and the size of the log
-- file, or the text of an error.
pub data Opening : Type 0 where
  opened : Content → ℕ → Rotated → Opening
  failed : Text → Opening

pub data LogError : Type 0 where
  open_error : Text → LogError
  marshal_error : LogError
  write_error : WriteError → LogError

-- `createWriter`, which looks again for a writer once it holds the lock.
unfoldable pub create_writer :
    Text → Opening → Manager → Manager × Option ProcessWriter × Option LogError
unfolding get_log_policy
create_writer component opening m = elim (Dict.lookup component m.writers) [
  | some w ↦ (m, some w, none)
  | none ↦ elim opening [
    | failed e ↦ (m, none, some (open_error e))
    | opened file size rotated ↦
        let w : ProcessWriter = record {
          component = component;
          file = file;
          current_size = size;
          rotation_count = 0;
          policy = get_log_policy component m;
          rotated = rotated;
        } in
        (record m { writers = Dict.insert component w m.writers }, some w, none)
  ]
]

unfoldable pub get_writer :
    Text → Opening → Manager → Manager × Option ProcessWriter × Option LogError
unfolding create_writer
get_writer component opening m = elim (Dict.lookup component m.writers) [
  | some w ↦ (m, some w, none)
  | none ↦ create_writer component opening m
]

abbrev pub rank : LogLevel → ℕ
rank debug = 0
rank info = 1
rank warn = 2
rank error = 3

-- `marshal` gives the JSON of the entry. The result says whether the entry goes to the streams of the
-- IPC server, which is there.
unfoldable pub write_log :
    (Text → LogLevel → Text → Option Text)
    → Text
    → LogLevel
    → Text
    → Opening
    → Disk
    → Manager
    → Manager × Bool × Option LogError
unfolding get_writer is_streaming
write_log marshal component level message opening disk m =
    if ltb (rank level) (rank m.config.level)
    then (m, false, none)
    else let (m', writer, e) = get_writer component opening m in
      elim writer [
        | none ↦ (m', false, e)
        | some w ↦ elim (marshal component level message) [
          | none ↦ (m', false, some marshal_error)
          | some entry ↦
              let (w', failure) = write disk entry w in
              let m'' = record m' { writers = Dict.insert component w' m'.writers } in
              elim failure [
                | some f ↦ (m'', false, some (write_error f))
                | none ↦ (m'', is_streaming component m'', none)
              ]
        ]
      ]
