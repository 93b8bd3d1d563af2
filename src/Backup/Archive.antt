-- ===== src/Backup/Archive.antt =====
-- internal/supervisor/supervisor.go: what the components of a backup write to the archive, and what
-- the components of a restore take from it.
use tmidb_core.Base.{
  true, false, List, [], ◌∷◌, ◌++◌, Option, none, some, Text, bytes, text_eq, if◌then◌else◌,
}
use tmidb_core.Base.Strings.{strip_prefix}
use tmidb_core.Base.Dict.{insert}
use tmidb_core.Backup.{Entry, Walk, ok, error, Site}

-- `filepath.Join(destDir, relPath)` on the relative paths that `filepath.Rel` gives, which are clean.
unfoldable pub join_path : Text → Text → Text
join_path dest rel = if text_eq rel (bytes ".") then dest else dest ++ bytes "/" ++ rel

-- What the archive holds after a step, and the error that it ended with.
abbrev pub Written : Type 0
Written = List Entry × Option Text

abbrev pub file_entry : Text → Text → Entry
file_entry name content = record { name = name; regular = true; content = content }

unfoldable pub entry_of : Text → Text × Option Text → Entry
entry_of dest (rel, none) = record { name = join_path dest rel; regular = false; content = [] }
entry_of dest (rel, some t) = file_entry (join_path dest rel) t

abbrev pub prefixed : Text → Written → Written
prefixed p (w, none) = (w, none)
prefixed p (w, some t) = (w, some (p ++ t))

-- `writes` is the error of `WriteHeader` and `Write`, for each entry; an entry with an error counts
-- as not written.
module _ (writes : Entry → Option Text) where
  unfoldable pub write_entry : Entry → List Entry → Written
  write_entry e w = elim (writes e) [ none ↦ (w ++ e ∷ [], none) | some t ↦ (w, some t) ]

  -- `addDirectoryToTar`
  unfoldable pub add_found : Text → List (Text × Option Text) → Option Text → List Entry → Written
  add_found dest [] failure w = (w, failure)
  add_found dest (f ∷ fs) failure w = elim (writes (entry_of dest f)) [
    | none ↦ add_found dest fs failure (w ++ entry_of dest f ∷ [])
    | some t ↦ (w, some t)
  ]

  unfoldable pub add_directory_to_tar : Walk → Text → List Entry → Written
  add_directory_to_tar walk dest w = add_found dest walk.found walk.failure w

  unfoldable pub backup_database : Site → List Entry → Written
  backup_database site w = elim site.dump [
    | ok sql ↦ write_entry (file_entry (bytes "database/tmidb.sql") sql) w
    | error e ↦ (w, some (bytes "pg_dump failed: " ++ e))
  ]

  unfoldable pub backup_config : Site → List Entry → Written
  backup_config site w = elim site.config_json [
    | ok json ↦ write_entry (file_entry (bytes "config/supervisor.json") json) w
    | error e ↦ (w, some (bytes "failed to marshal config: " ++ e))
  ]

  unfoldable pub backup_data : Option Walk → Written → Written
  backup_data none (w, e) = (w, e)
  backup_data (some walk) (w, some e) = (w, some e)
  backup_data (some walk) (w, none) =
      prefixed (bytes "failed to backup data: ") (add_directory_to_tar walk (bytes "files/data") w)

  unfoldable pub backup_files : Site → List Entry → Written
  backup_files site w = backup_data site.data_dir (
      prefixed (bytes "failed to backup logs: ")
        (add_directory_to_tar site.logs (bytes "files/logs") w))

  unfoldable pub backup_component : Text → Site → List Entry → Written
  backup_component component site w =
      if text_eq component (bytes "database")
      then backup_database site w
      else if text_eq component (bytes "config")
      then backup_config site w
      else if text_eq component (bytes "files")
      then backup_files site w
      else (w, some (bytes "unknown component: " ++ component))

-- What a restore changes: the files by path, and the SQL that `psql` has run.
pub record Host : Type 0 where
  pub files : List (Text × Text)
  pub ran : List Text

-- An archive as a fresh reader gives it: its entries, and the error after them, if any.
pub record Archive : Type 0 where
  pub entries : List Entry
  pub damage : Option Text

unfoldable pub restore_entry : Text → Entry → Host → Host
restore_entry target e host =
    if e.regular then record host { files = insert target e.content host.files } else host

-- `denied` is the error of making a file's directory, the file, its content or its mode, by path;
-- `psql` the error of running SQL, whose temporary file is taken to be made.
module _ (denied : Text → Option Text) (psql : Text → Option Text) where
  unfoldable pub restore_database : List Entry → Option Text → Host → Host × Option Text
  restore_database [] (some e) host = (host, some e)
  restore_database [] none host = (host, some (bytes "database backup not found in archive"))
  restore_database (e ∷ es) damage host =
      let rest = restore_database es damage host in
      if text_eq e.name (bytes "database/tmidb.sql")
      then (record host { ran = host.ran ++ e.content ∷ [] }, psql e.content)
      else rest

  -- `parses` is whether encoding/json reads the configuration. Nothing is made of it but a line of
  -- the log.
  unfoldable pub restore_config : (Text → Option Text) → List Entry → Option Text → Option Text
  restore_config parses [] (some e) = some e
  restore_config parses [] none = some (bytes "config backup not found in archive")
  restore_config parses (e ∷ es) damage =
      let rest = restore_config parses es damage in
      if text_eq e.name (bytes "config/supervisor.json") then parses e.content else rest

  unfoldable pub restore_files : List Entry → Option Text → Host → Host × Option Text
  restore_files [] damage host = (host, damage)
  restore_files (e ∷ es) damage host = elim (strip_prefix (bytes "files/") e.name) [
    | none ↦ restore_files es damage host
    | some target ↦ elim (denied target) [
      | some t ↦ (host, some t)
      | none ↦ restore_files es damage (restore_entry target e host)
    ]
  ]

  unfoldable pub restore_component :
      (Text → Option Text) → Text → Archive → Host → Host × Option Text
  restore_component parses component a host =
      if text_eq component (bytes "database")
      then restore_database a.entries a.damage host
      else if text_eq component (bytes "config")
      then (host, restore_config parses a.entries a.damage)
      else if text_eq component (bytes "files")
      then restore_files a.entries a.damage host
      else (host, some (bytes "unknown component: " ++ component))
