-- ===== src/Backup/Listing.antt =====
-- internal/supervisor/supervisor.go: the list of backups, and the message that verifies one.
use tmidb_core.Base.{
  ℕ, Bool, true, false, not, ◌&&◌, ◌||◌, List, [], ◌∷◌, ◌++◌, Option, none, some, Text, bytes,
  is_empty, if◌then◌else◌, text_eq, ◌==◌,
}
use tmidb_core.Base.Strings.{is_some, strip_suffix}
use tmidb_core.Base.Dict.{lookup}
use tmidb_core.Ipc.{Response, new_response}
use tmidb_core.Backup.{completed, Status, BackupInfo}
use tmidb_core.Backup.Verify.{Next, Report, verify_backup}
use tmidb_core.Backup.Table.{Tables}

-- A backup as the list shows it; the format of its time is not written out.
pub record Listed : Type 0 where
  pub id : Text
  pub name : Text
  pub created : ℕ
  pub size : ℕ
  pub components : List Text
  pub compressed : Bool
  pub status : Status

-- What a file's information says.
pub record FileInfo : Type 0 where
  pub size : ℕ
  pub mod_time : ℕ

-- An entry of the directory; `info` is `none` where `Info` fails.
pub record DirEntry : Type 0 where
  pub name : Text
  pub is_dir : Bool
  pub info : Option FileInfo

unfoldable pub listed_backup : BackupInfo → Listed
listed_backup b = record {
  id = b.id;
  name = b.name;
  created = b.created;
  size = b.size;
  components = b.components;
  compressed = b.compressed;
  status = b.status;
}

abbrev pub has_byte : ℕ → Text → Bool
has_byte c [] = false
has_byte c (d ∷ t) = d == c || has_byte c t

-- `strings.TrimSuffix(name, filepath.Ext(name))` on a name without a slash
unfoldable pub without_extension : Text → Text
without_extension [] = []
without_extension (c ∷ t) =
    let rest = without_extension t in
    if c == b'.' then (if has_byte b'.' t then c ∷ rest else []) else c ∷ rest

unfoldable pub is_archive : DirEntry → Bool
is_archive f =
    not f.is_dir
    && (is_some (strip_suffix (bytes ".tar") f.name)
        || is_some (strip_suffix (bytes ".tar.gz") f.name))

unfoldable pub listed_file : Text → FileInfo → Listed
listed_file name info = record {
  id = name;
  name = without_extension name;
  created = info.mod_time;
  size = info.size;
  components = bytes "unknown" ∷ [];
  compressed = is_some (strip_suffix (bytes ".gz") name);
  status = completed;
}

-- Whether a backup of the table has the path.
abbrev pub is_known : Text → List (Text × BackupInfo) → Bool
is_known path [] = false
is_known path ((id, b) ∷ m) = if text_eq b.path path then true else is_known path m

abbrev pub listed_backups : List (Text × BackupInfo) → List Listed
listed_backups [] = []
listed_backups ((id, b) ∷ m) = listed_backup b ∷ listed_backups m

module _ (join : Text → Text → Text) where
  unfoldable pub list_file : List (Text × BackupInfo) → DirEntry → List Listed
  list_file m f =
      if is_archive f && not (is_known (join (bytes "./backups") f.name) m)
      then (elim f.info [ none ↦ [] | some info ↦ listed_file f.name info ∷ [] ])
      else []

  unfoldable pub list_files : List (Text × BackupInfo) → List DirEntry → List Listed
  list_files m [] = []
  list_files m (f ∷ fs) = list_file m f ++ list_files m fs

  -- A directory that cannot be read is `none`.
  unfoldable pub handle_backup_list :
      Text → Option (List DirEntry) → Tables → Response (List Listed)
  handle_backup_list id none t = new_response id true (some (listed_backups t.backups)) []
  handle_backup_list id (some fs) t =
      new_response id true (some (listed_backups t.backups ++ list_files t.backups fs)) []

-- `opens`, `unzips` and `next` are what the file at a path gives, and `exists` is `os.Stat`; the
-- second result is whether the verification has ended in so many rounds.
unfoldable pub handle_backup_verify :
    (exists : Text → Bool) (opens unzips : Text → Option Text) (next : Text → ℕ → Next)
    → ℕ
    → Text
    → Text
    → Tables
    → Response Report × Bool
handle_backup_verify exists opens unzips next fuel id backup t =
    if is_empty backup
    then (new_response id false none (bytes "backup is required"), true)
    else let path : Text = elim (lookup backup t.backups) [ some b ↦ b.path | none ↦ backup ] in
      let r = verify_backup (opens path) (unzips path) fuel (next path) in
      if exists path
      then (new_response id true (some r.0) [], r.1)
      else (new_response id false none (bytes "backup file not found"), true)
