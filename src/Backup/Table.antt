-- ===== src/Backup/Table.antt =====
-- internal/supervisor/supervisor.go: the tables of backups and of their progress, and the messages
-- about them.
use tmidb_core.Base.{
  ℕ, Bool, true, false, List, [], ◌∷◌, ◌++◌, Option, none, some, Text, bytes, is_empty,
  if◌then◌else◌,
}
use tmidb_core.Base.Dict.{lookup, insert, delete}
use tmidb_core.Ipc.{Response, new_response}
use tmidb_core.Backup.{creating, restoring, part, Progress, BackupInfo}

pub record Tables : Type 0 where
  pub backups : List (Text × BackupInfo)
  pub backup_progress : List (Text × Progress)
  pub restore_progress : List (Text × Progress)

-- What the data of a response is.
pub data BackupAnswer : Type 0 where
  started : (id path : Text) → BackupAnswer
  restore_started : Text → BackupAnswer
  progress_of : Progress → BackupAnswer
  nothing : BackupAnswer

abbrev pub default_components : List Text
default_components = bytes "database" ∷ bytes "config" ∷ bytes "files" ∷ []

-- The entries of the message, `none` for those that are no strings; no list is `none`.
unfoldable pub component_names : List (Option Text) → List Text
component_names [] = []
component_names (none ∷ cs) = [] ∷ component_names cs
component_names (some c ∷ cs) = c ∷ component_names cs

unfoldable pub parse_components : Option (List (Option Text)) → List Text
parse_components none = default_components
parse_components (some cs) = component_names cs

abbrev pub or_default : Text → Text → Text
or_default d t = if is_empty t then d else t

-- What a request to make a backup says; an absent value is empty.
pub record BackupRequest : Type 0 where
  pub name : Text
  pub components : Option (List (Option Text))
  pub compress : Bool
  pub output_dir : Text

-- `backup_id` is what `fmt.Sprintf` makes of the seconds of the time, `named` the name by the time,
-- `join` is `filepath.Join`, and `mkdir` the error of making the directory.
module _ (backup_id restore_id named : ℕ → Text) (join : Text → Text → Text) where
  unfoldable pub backup_path : Text → Text → Bool → Text
  backup_path dir name compress =
      if compress then join dir (name ++ bytes ".tar.gz") else join dir (name ++ bytes ".tar")

  unfoldable pub new_backup : BackupRequest → ℕ → BackupInfo
  new_backup r now =
      let name = or_default (named now) r.name in
      record {
        id = backup_id now;
        name = name;
        path = backup_path (or_default (bytes "./backups") r.output_dir) name r.compress;
        size = 0;
        created = now;
        components = parse_components r.components;
        compressed = r.compress;
        checksum = [];
        status = creating;
      }

  unfoldable pub handle_backup_create :
      Text → BackupRequest → Option Text → ℕ → Tables → Tables × Response BackupAnswer
  handle_backup_create id r (some e) now t =
      (t, new_response id false none (bytes "failed to create backup directory: " ++ e))
  handle_backup_create id r none now t =
      let b = new_backup r now in
      (
        record t {
          backups = insert b.id b t.backups;
          backup_progress =
              insert b.id
                (record {
                  id = b.id;
                  status = creating;
                  percent = part 0 1;
                  current = bytes "Initializing backup";
                  start_time = now;
                  end_time = none;
                  error = [];
                })
                t.backup_progress;
        },
        new_response id true (some (started b.id b.path)) [],
      )

  -- The path that a request names, and whether it is there; `exists` is `os.Stat`.
  unfoldable pub restore_path : (Text → Bool) → Text → Tables → Option Text
  restore_path exists backup t = elim (lookup backup t.backups) [
    | some b ↦ some b.path
    | none ↦ if exists backup then some backup else none
  ]

  unfoldable pub handle_backup_restore :
      Text → Text → (Text → Bool) → ℕ → Tables → Tables × Response BackupAnswer
  handle_backup_restore id backup exists now t =
      if is_empty backup
      then (t, new_response id false none (bytes "backup is required"))
      else elim (restore_path exists backup t) [
        | none ↦ (t, new_response id false none (bytes "backup file not found"))
        | some path ↦ (
          record t {
            restore_progress =
                insert (restore_id now)
                  (record {
                    id = restore_id now;
                    status = restoring;
                    percent = part 0 1;
                    current = bytes "Initializing restore";
                    start_time = now;
                    end_time = none;
                    error = [];
                  })
                  t.restore_progress;
          },
          new_response id true (some (restore_started (restore_id now))) [],
        )
      ]

  -- The file that is removed is a result; `remove` is the error of `os.Remove`.
  unfoldable pub handle_backup_delete :
      Text
      → Text
      → (Text → Bool)
      → (Text → Option Text)
      → Tables
      → (Tables × Option Text) × Response BackupAnswer
  handle_backup_delete id backup exists remove t =
      if is_empty backup
      then ((t, none), new_response id false none (bytes "backup id is required"))
      else elim (lookup backup t.backups) [
        | none ↦
            let path = join (bytes "./backups") backup in
            if exists path
            then elim (remove path) [
              | some e ↦ (
                (t, none),
                new_response id false none (bytes "failed to delete backup file: " ++ e),
              )
              | none ↦ ((t, some path), new_response id true none [])
            ]
            else ((t, none), new_response id false none (bytes "backup not found"))
        | some b ↦ elim (remove b.path) [
          | some e ↦
              ((t, none), new_response id false none (bytes "failed to delete backup file: " ++ e))
          | none ↦ (
            (
              record t {
                backups = delete backup t.backups;
                backup_progress = delete backup t.backup_progress;
              },
              some b.path,
            ),
            new_response id true none [],
          )
        ]
      ]

unfoldable pub progress_at :
    Text → Text → Text → Text → List (Text × Progress) → Response BackupAnswer
progress_at id key required missing table =
    if is_empty key then new_response id false none required else elim (lookup key table) [
      | none ↦ new_response id false none missing
      | some p ↦ new_response id true (some (progress_of p)) []
    ]

unfoldable pub handle_backup_progress : Text → Text → Tables → Response BackupAnswer
handle_backup_progress id key t =
    progress_at id key (bytes "backup id is required") (bytes "backup progress not found")
      t.backup_progress

unfoldable pub handle_restore_progress : Text → Text → Tables → Response BackupAnswer
handle_restore_progress id key t =
    progress_at id key (bytes "restore id is required") (bytes "restore progress not found")
      t.restore_progress
