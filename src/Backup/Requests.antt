-- ===== src/Backup/Requests.antt =====
-- internal/supervisor/supervisor.go: what requests make of the tables of backups.
use tmidb_core.Base.{
  ℕ, ◌≡◌, refl, sym, ap, ◌∙◌, Bool, true, false, List, [], ◌∷◌, Option, none, some, Text, is_empty,
  length, text_eq_refl, text_eq_iff, arith,
}
use tmidb_core.Base.Dict.{lookup, insert, delete, lookup-insert, length-insert_there}
use tmidb_core.Ipc.{Response, new_response}
use tmidb_core.Backup.{BackupInfo}
use tmidb_core.Backup.Table.{
  Tables, BackupAnswer, BackupRequest, new_backup, handle_backup_create, handle_backup_delete,
}

delete-insert :
    {V : Type 0} (k : Text) (v : V) (m : List (Text × V))
    → lookup k m ≡ none
    → delete k (insert k v m) ≡ m
unfolding delete insert lookup
delete-insert k v [] h = ground (arith, text_eq_refl k)
delete-insert k v ((j, w) ∷ m) h = ground (arith, delete-insert k v m, text_eq_iff j k)

module _ (backup_id restore_id named : ℕ → Text) (join : Text → Text → Text) where
  abbrev pub create : Text → BackupRequest → ℕ → Tables → Tables × Response BackupAnswer
  create id r now t = handle_backup_create backup_id restore_id named join id r none now t

  abbrev pub made_by : BackupRequest → ℕ → BackupInfo
  made_by r now = new_backup backup_id restore_id named join r now

  create-lookup :
      (id : Text) (r : BackupRequest) (now : ℕ) (t : Tables)
      → lookup (backup_id now) (create id r now t).0.backups ≡ some (made_by r now)
  unfolding handle_backup_create new_backup
  create-lookup id r now t =
      rw (lookup-insert (backup_id now) (backup_id now) (made_by r now) t.backups)
        (rw (text_eq_refl (backup_id now)) refl)

  create-backups :
      (id : Text) (r : BackupRequest) (now : ℕ) (t : Tables)
      → (create id r now t).0.backups ≡ insert (backup_id now) (made_by r now) t.backups
  unfolding handle_backup_create new_backup
  create-backups id r now t = refl

  create-success :
      (id : Text) (r : BackupRequest) (now : ℕ) (t : Tables) → (create id r now t).1.success ≡ true
  unfolding handle_backup_create new_response
  create-success id r now t = refl

  -- Two requests to make a backup whose times have the same seconds are both answered with success,
  -- and leave one backup: the first one's record is gone, whatever the names and the paths.
  pub create_same_second :
      (id id2 : Text) (r r2 : BackupRequest) (now later : ℕ) (t : Tables)
      → backup_id later ≡ backup_id now
      → let first = create id r now t in
        let second = create id2 r2 later first.0 in
        (first.1.success ≡ true)
        × (second.1.success ≡ true)
        × (lookup (backup_id now) second.0.backups ≡ some (made_by r2 later))
        × (length second.0.backups ≡ length first.0.backups)
  create_same_second id id2 r r2 now later t same =
      let first = (create id r now t).0 in
      (
        create-success id r now t,
        create-success id2 r2 later first,
        rw (sym same) (create-lookup id2 r2 later first),
        ap length (create-backups id2 r2 later first)
            ∙ length-insert_there (backup_id later) (made_by r2 later) (made_by r now) first.backups
                (rw same (create-lookup id r now t)),
      )

  deleted-create :
      (id : Text) (r : BackupRequest) (now : ℕ) (t : Tables)
      → lookup (backup_id now) t.backups ≡ none
      → lookup (backup_id now) t.backup_progress ≡ none
      → ◌≡◌ {A = Tables}
          (record (create id r now t).0 {
            backups = delete (backup_id now) (create id r now t).0.backups;
            backup_progress = delete (backup_id now) (create id r now t).0.backup_progress;
          })
          t
  unfolding handle_backup_create new_backup
  deleted-create id r now t fresh fresh2 =
      let a = delete-insert (backup_id now) (made_by r now) t.backups fresh in
      let b = delete-insert (backup_id now) _ t.backup_progress fresh2 in
      λ i. record t { backups = a i; backup_progress = b i }

  -- A backup that is made under a new identifier and then deleted, when the file can be removed,
  -- leaves the tables as they were, and removes the file that the first answer named.
  pub delete-create :
      (id id2 : Text) (r : BackupRequest) (now : ℕ) (t : Tables) (exists : Text → Bool)
      (remove : Text → Option Text)
      → lookup (backup_id now) t.backups ≡ none
      → lookup (backup_id now) t.backup_progress ≡ none
      → is_empty (backup_id now) ≡ false
      → remove (made_by r now).path ≡ none
      → (handle_backup_delete backup_id restore_id named join id2
          (backup_id now)
          exists
          remove
          (create id r now t).0).0
        ≡ (t, some (made_by r now).path)
  unfolding handle_backup_delete
  delete-create id id2 r now t exists remove new_one new_progress full gone =
      rw (full, handle_backup_delete)
        (rw (create-lookup id r now t) (
          rw gone (
            ap (λ x. (x, some (made_by r now).path))
              (deleted-create id r now t new_one new_progress))))
