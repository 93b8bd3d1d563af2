-- ===== src/Backup/Found.antt =====
-- internal/supervisor/supervisor.go: what can be done with an archive that the list finds in the
-- directory of backups.
use tmidb_core.Base.{
  ℕ, ◌≡◌, refl, Bool, true, false, ◌||◌, List, [], ◌∷◌, ◌++◌, Option, none, some, Text, bytes,
  is_empty, text_eq, text_eq_refl, arith,
}
use tmidb_core.Base.Strings.{strip_suffix}
use tmidb_core.Base.Dict.{lookup}
use tmidb_core.Ipc.{Response, new_response}
use tmidb_core.Backup.{BackupInfo}
use tmidb_core.Backup.Verify.{Next}
use tmidb_core.Backup.Table.{Tables, handle_backup_restore, handle_backup_delete, restore_path}
use tmidb_core.Backup.Listing.{
  Listed, FileInfo, DirEntry, is_archive, is_known, listed_file, listed_backups, list_file,
  list_files, handle_backup_list, handle_backup_verify,
}

-- Whether a list of backups has one with the identifier.
abbrev pub shows : Text → List Listed → Bool
shows id [] = false
shows id (l ∷ ls) = text_eq l.id id || shows id ls

abbrev pub shown_in : Text → Response (List Listed) → Bool
shown_in id r = elim r.data_ [ none ↦ false | some ls ↦ shows id ls ]

abbrev pub not_found : {A : Type 0} → Text → Response A
not_found id = new_response id false none (bytes "backup file not found")

shows-append_left :
    (id : Text) (xs ys : List Listed) → shows id xs ≡ true → shows id (xs ++ ys) ≡ true
shows-append_left id [] ys h = absurd (cc)
shows-append_left id (x ∷ xs) ys h = ground (arith, shows-append_left id xs ys)

shows-append_right :
    (id : Text) (xs ys : List Listed) → shows id ys ≡ true → shows id (xs ++ ys) ≡ true
shows-append_right id [] ys h = h
shows-append_right id (x ∷ xs) ys h = ground (arith, shows-append_right id xs ys h)

is_archive-is_empty : (f : DirEntry) → is_archive f ≡ true → is_empty f.name ≡ false
unfolding is_archive strip_suffix
is_archive-is_empty f h = ground arith

module _ (join : Text → Text → Text) (f : DirEntry) (info : FileInfo) (m : List (Text × BackupInfo))
    (archive : is_archive f ≡ true) (has_info : f.info ≡ some info)
    (unknown : is_known (join (bytes "./backups") f.name) m ≡ false) where
  list_file-shows : shows f.name (list_file join m f) ≡ true
  unfolding list_file listed_file
  list_file-shows = rw archive (rw unknown (rw has_info (rw (text_eq_refl f.name) refl)))

  list_files-shows :
      (xs ys : List DirEntry) → shows f.name (list_files join m (xs ++ f ∷ ys)) ≡ true
  unfolding list_files
  list_files-shows [] ys =
      shows-append_left f.name (list_file join m f) (list_files join m ys) list_file-shows
  list_files-shows (x ∷ xs) ys =
      shows-append_right f.name (list_file join m x) (list_files join m (xs ++ f ∷ ys))
        (list_files-shows xs ys)

module _ (backup_id restore_id named : ℕ → Text) (join : Text → Text → Text) (exists : Text → Bool)
    (id : Text) (t : Tables) where
  restore_missing :
      (name : Text) (now : ℕ)
      → is_empty name ≡ false
      → lookup name t.backups ≡ none
      → exists name ≡ false
      → handle_backup_restore backup_id restore_id named join id name exists now t
        ≡ (t, not_found id)
  unfolding handle_backup_restore restore_path
  restore_missing name now full new_one gone =
      rw (full, handle_backup_restore) (rw (new_one, restore_path) (rw gone refl))

  verify_missing :
      (opens unzips : Text → Option Text) (next : Text → ℕ → Next) (fuel : ℕ) (name : Text)
      → is_empty name ≡ false
      → lookup name t.backups ≡ none
      → exists name ≡ false
      → handle_backup_verify exists opens unzips next fuel id name t ≡ (not_found id, true)
  unfolding handle_backup_verify
  verify_missing opens unzips next fuel name full new_one gone =
      rw (full, handle_backup_verify) (rw new_one (rw gone refl))

  delete_there :
      (remove : Text → Option Text) (name : Text)
      → is_empty name ≡ false
      → lookup name t.backups ≡ none
      → exists (join (bytes "./backups") name) ≡ true
      → remove (join (bytes "./backups") name) ≡ none
      → handle_backup_delete backup_id restore_id named join id name exists remove t
        ≡ ((t, some (join (bytes "./backups") name)), new_response id true none [])
  unfolding handle_backup_delete
  delete_there remove name full new_one there gone =
      rw (full, handle_backup_delete) (rw new_one (rw there (rw gone refl)))

  -- An archive in the directory of backups that no backup of the tables has, by its name or its
  -- path, is listed under its file name. When the working directory has no file of that name, a
  -- request to restore it or to verify it under that name is answered as not found, while a request
  -- to delete it removes it, if the file can be removed.
  pub listed_not_restored :
      (f : DirEntry) (info : FileInfo) (xs ys : List DirEntry) (now fuel : ℕ)
      (opens unzips remove : Text → Option Text) (next : Text → ℕ → Next)
      → is_archive f ≡ true
      → f.info ≡ some info
      → is_known (join (bytes "./backups") f.name) t.backups ≡ false
      → lookup f.name t.backups ≡ none
      → exists f.name ≡ false
      → exists (join (bytes "./backups") f.name) ≡ true
      → remove (join (bytes "./backups") f.name) ≡ none
      → (shown_in f.name (handle_backup_list join id (some (xs ++ f ∷ ys)) t) ≡ true)
        × (handle_backup_restore backup_id restore_id named join id f.name exists now t
            ≡ (t, not_found id))
        × (handle_backup_verify exists opens unzips next fuel id f.name t ≡ (not_found id, true))
        × (handle_backup_delete backup_id restore_id named join id f.name exists remove t
            ≡ ((t, some (join (bytes "./backups") f.name)), new_response id true none []))
  unfolding handle_backup_list new_response
  listed_not_restored f info xs ys now fuel opens unzips remove next archive has_info unknown
        new_one away there gone =
      let full = is_archive-is_empty f archive in
      (
        shows-append_right f.name (listed_backups t.backups)
            (list_files join t.backups (xs ++ f ∷ ys))
            (list_files-shows join f info t.backups archive has_info unknown xs ys),
        restore_missing f.name now full new_one away,
        verify_missing opens unzips next fuel f.name full new_one away,
        delete_there remove f.name full new_one there gone,
      )
