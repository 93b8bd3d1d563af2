-- ===== src/Backup/Tests.antt =====
-- internal/supervisor/supervisor.go: backups and archives on which the theorems are run.
use tmidb_core.Base.{
  ℕ, zero, suc, ◌+◌, ◌<◌, ◌≤◌, ◌≡◌, refl, pos, true, false, List, [], ◌∷◌, ◌++◌, Option, none, some,
  Text, bytes, length, arith, text_eq, Bool,
}
use tmidb_core.Base.Strings.{strip_suffix, strip_prefix}
use Prim.Native.String.{String}
use tmidb_core.Base.Dict.{lookup}
use tmidb_core.Backup.{Entry, ok, Site, creating, part, Progress, BackupInfo, completed}
use tmidb_core.Backup.Archive.{
  Host, restore_component, backup_component, backup_files, backup_data, add_directory_to_tar,
  add_found, backup_database, write_entry,
}
use tmidb_core.Backup.Perform.{Measured, perform_backup, components_backed_up, over_components}
use tmidb_core.Backup.Roundtrip.{backup_database-restored}
use tmidb_core.Backup.Files.{log_path, backup_files-restored}
use tmidb_core.Backup.Verify.{Header, Next, header, read_error, verify_backup}
use tmidb_core.Backup.Verified.{reading, some_prefix, verify_backup_lem}
use tmidb_core.Backup.Damaged.{verify_backup_hangs}
use tmidb_core.Backup.Table.{Tables, BackupRequest, handle_backup_restore, handle_backup_delete}
use tmidb_core.Ipc.{new_response}
use tmidb_core.Backup.Listing.{
  DirEntry, handle_backup_list, handle_backup_verify, is_archive, without_extension,
}
use tmidb_core.Backup.Found.{shown_in, not_found, listed_not_restored}

abbrev site : Site
site = record {
  dump = ok (bytes "select 1;");
  config_json = ok (bytes "{}");
  logs = record {
    found = (bytes ".", none) ∷ (bytes "api.log", some (bytes "x")) ∷ [];
    failure = none;
  };
  data_dir = none;
}

abbrev backup : BackupInfo
backup = record {
  id = bytes "backup-1";
  name = bytes "b";
  path = bytes "backups/b.tar";
  size = 0;
  created = 1;
  components = bytes "files" ∷ bytes "database" ∷ [];
  compressed = false;
  checksum = [];
  status = creating;
}

abbrev progress : Progress
progress = record {
  id = bytes "backup-1";
  status = creating;
  percent = part 0 1;
  current = [];
  start_time = 1;
  end_time = none;
  error = [];
}

abbrev host : Host
host = record { files = []; ran = [] }

abbrev fine : Text → Option Text
fine t = none

abbrev writes : Entry → Option Text
writes e = none

abbrev measure : List Entry → Measured
measure es = record { size = some (length es); checksum = some (bytes "sum") }

abbrev performed : List Entry
performed = (perform_backup writes measure site none 2 backup progress).entries

is_completed : (perform_backup writes measure site none 2 backup progress).backup.status ≡ completed
unfolding perform_backup components_backed_up over_components backup_component backup_files
    backup_data add_directory_to_tar add_found backup_database write_entry text_eq
is_completed = refl

backup_database-restored_example :
    restore_component fine fine fine
      (bytes "database")
      (record { entries = performed; damage = none })
      host
    ≡ (record { files = []; ran = bytes "select 1;" ∷ [] }, none)
unfolding text_eq
backup_database-restored_example =
    backup_database-restored writes measure fine fine fine site (bytes "select 1;") 2 backup
      progress host refl refl is_completed

backup_files-restored_example :
    lookup
      (log_path (bytes "api.log"))
      (restore_component fine fine fine
        (bytes "files")
        (record { entries = performed; damage = none })
        host).0.files
    ≡ some (bytes "x")
unfolding text_eq lookup
backup_files-restored_example =
    backup_files-restored writes measure fine fine fine site (bytes "api.log") (bytes "x") 2 backup
      progress host (λ t. refl) refl (refl, (refl, tt)) refl refl is_completed

abbrev headers : List Header
headers =
    record { name = bytes "config/supervisor.json"; size = pos 2 }
    ∷ record { name = bytes "files/logs"; size = pos 0 }
    ∷ []

verify_backup_lem_example : verify_backup none none 3 (reading headers) ≡ (
  record {
    valid = true;
    integrity = true;
    database = some_prefix (bytes "database/") headers;
    config = some_prefix (bytes "config/") headers;
    files = some_prefix (bytes "files/") headers;
    errors = [];
  },
  true,
)
verify_backup_lem_example = verify_backup_lem headers 3 (omega arith) ((2, refl), ((0, refl), tt))

-- An archive that is cut off within its second entry.
abbrev cut_off : ℕ → Next
cut_off zero = header (record { name = bytes "config/supervisor.json"; size = pos 2 })
cut_off (suc i) = read_error (bytes "unexpected EOF")

cut_off-Sticky : (i : ℕ) (t : Text) → cut_off i ≡ read_error t → cut_off (suc i) ≡ read_error t
cut_off-Sticky zero t h = absurd (cc)
cut_off-Sticky (suc i) t h = h

cut_off-header : (i : ℕ) → i < 1 → (h : Header) × (cut_off i ≡ header h)
cut_off-header zero lt = (record { name = bytes "config/supervisor.json"; size = pos 2 }, refl)
cut_off-header (suc i) lt = absurd (omega arith)

verify_backup_hangs_example :
    ((verify_backup none none 500 cut_off).1 ≡ false)
    × (500 ≤ 1 + length (verify_backup none none 500 cut_off).0.errors)
verify_backup_hangs_example =
    verify_backup_hangs 500 1 cut_off (bytes "unexpected EOF") cut_off-Sticky cut_off-header refl

abbrev request : String → BackupRequest
request name = record { name = bytes name; components = none; compress = false; output_dir = [] }

abbrev tables : Tables
tables = record { backups = []; backup_progress = []; restore_progress = [] }

abbrev by_seconds : ℕ → Text
by_seconds now = bytes "backup-1"

abbrev join : Text → Text → Text
join a b = a ++ bytes "/" ++ b

-- A file of the directory of backups, of which the tables know nothing.
abbrev old : DirEntry
old = record {
  name = bytes "old.tar.gz";
  is_dir = false;
  info = some (record { size = 10; mod_time = 1 });
}

abbrev in_backups : Text → Bool
in_backups path = text_eq path (bytes "./backups/old.tar.gz")

abbrev no_error : Text → Option Text
no_error t = none

old-archive : is_archive old ≡ true
unfolding is_archive strip_suffix strip_prefix
old-archive = refl

-- A file is listed under its name without the last suffix only.
old_name : without_extension old.name ≡ bytes "old.tar"
unfolding without_extension
old_name = refl

listed_not_restored_example :
    (shown_in old.name (handle_backup_list join (bytes "1") (some (old ∷ [])) tables) ≡ true)
    × (handle_backup_restore by_seconds by_seconds by_seconds join
          (bytes "1")
          old.name
          in_backups
          1
          tables
        ≡ (tables, not_found (bytes "1")))
    × (handle_backup_verify in_backups no_error no_error
          (λ t. cut_off)
          500
          (bytes "1")
          old.name
          tables
        ≡ (not_found (bytes "1"), true))
    × (handle_backup_delete by_seconds by_seconds by_seconds join
          (bytes "1")
          old.name
          in_backups
          no_error
          tables
        ≡ ((tables, some (bytes "./backups/old.tar.gz")), new_response (bytes "1") true none []))
unfolding lookup text_eq
listed_not_restored_example =
    listed_not_restored by_seconds by_seconds by_seconds join in_backups (bytes "1") tables old
      (record { size = 10; mod_time = 1 }) [] [] 1 500 no_error no_error no_error (λ t. cut_off)
      old-archive refl refl refl refl refl refl
