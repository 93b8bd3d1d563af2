-- ===== src/Backup/Written.antt =====
-- internal/supervisor/supervisor.go: what the archive of a backup that succeeds holds.
use tmidb_core.Base.{
  ◌≡◌, refl, sym, ap, ◌∙◌, List, [], ◌∷◌, ◌++◌, map, Option, none, some, Text, bytes, text_eq,
  if◌then◌else◌, Bool-cases, Option-cases, inl, inr, append-nil, append-append, append-append_one,
}
use tmidb_core.Backup.{Entry, Walk, Made, ok, error, Site}
use tmidb_core.Backup.Archive.{
  Written, write_entry, file_entry, entry_of, add_found, add_directory_to_tar, prefixed,
  backup_database, backup_config, backup_data, backup_files, backup_component,
}

abbrev pub walked : Text → Walk → List Entry
walked dest walk = map (entry_of dest) walk.found

abbrev pub made : Text → Made → List Entry
made name (ok t) = file_entry name t ∷ []
made name (error e) = []

abbrev pub walked_data : Option Walk → List Entry
walked_data none = []
walked_data (some walk) = walked (bytes "files/data") walk

-- The entries of a component when nothing fails.
unfoldable pub own : Text → Site → List Entry
own component site =
    if text_eq component (bytes "database")
    then made (bytes "database/tmidb.sql") site.dump
    else if text_eq component (bytes "config")
    then made (bytes "config/supervisor.json") site.config_json
    else walked (bytes "files/logs") site.logs ++ walked_data site.data_dir

module _ (writes : Entry → Option Text) where
  add_found-none :
      (dest : Text) (fs : List (Text × Option Text)) (failure : Option Text) (w v : List Entry)
      → add_found writes dest fs failure w ≡ (v, none)
      → v ≡ w ++ map (entry_of dest) fs
  unfolding add_found
  add_found-none dest [] failure w v h = sym (ap (λ r. r.0) h) ∙ sym (append-nil w)
  add_found-none dest (f ∷ fs) failure w v h = elim (Option-cases (writes (entry_of dest f))) [
    | inl e ↦
        add_found-none dest fs failure (w ++ entry_of dest f ∷ []) v (rw (e, add_found) at h)
        ∙ append-append_one w (entry_of dest f) (map (entry_of dest) fs)
    | inr (t, e) ↦ absurd (let no : some t ≡ none = ap (λ r. r.1) (rw (e, add_found) at h) in cc)
  ]

  write_entry-none :
      (e : Entry) (w v : List Entry) → write_entry writes e w ≡ (v, none) → v ≡ w ++ e ∷ []
  unfolding write_entry
  write_entry-none e w v h = elim (Option-cases (writes e)) [
    | inl n ↦ sym (ap (λ r. r.0) (rw (n, write_entry) at h))
    | inr (t, n) ↦ absurd (let no : some t ≡ none = ap (λ r. r.1) (rw (n, write_entry) at h) in cc)
  ]

  prefixed-none :
      (p : Text) (r : Written) (v : List Entry) → prefixed p r ≡ (v, none) → r ≡ (v, none)
  prefixed-none p (w, none) v h = h
  prefixed-none p (w, some t) v h = absurd (let no : some (p ++ t) ≡ none = ap (λ r. r.1) h in cc)

  backup_data-none :
      (walk : Option Walk) (r : Written) (v : List Entry)
      → backup_data writes walk r ≡ (v, none)
      → (w : List Entry) × (r ≡ (w, none)) × (v ≡ w ++ walked_data walk)
  unfolding backup_data add_directory_to_tar
  backup_data-none none (w, e) v h =
      (w, ap (λ x. (w, x)) (ap (λ r. r.1) h), sym (ap (λ r. r.0) h) ∙ sym (append-nil w))
  backup_data-none (some walk) (w, some e) v h =
      absurd (let no : some e ≡ none = ap (λ r. r.1) h in cc)
  backup_data-none (some walk) (w, none) v h = (
    w,
    refl,
    add_found-none (bytes "files/data") walk.found walk.failure w v
        (prefixed-none (bytes "failed to backup data: ") _ v h),
  )

  made-none :
      (name : Text) (m : Made) (e : Text → Text) (w v : List Entry)
      → (elim m as (λ x. Written) [
        | ok t ↦ write_entry writes (file_entry name t) w
        | error t ↦ (w, some (e t))
      ])
        ≡ (v, none)
      → v ≡ w ++ made name m
  made-none name (ok t) e w v h = write_entry-none (file_entry name t) w v h
  made-none name (error t) e w v h = absurd (let no : some (e t) ≡ none = ap (λ r. r.1) h in cc)

  backup_files-none :
      (site : Site) (w v : List Entry)
      → backup_files writes site w ≡ (v, none)
      → v ≡ w ++ (walked (bytes "files/logs") site.logs ++ walked_data site.data_dir)
  unfolding backup_files add_directory_to_tar
  backup_files-none site w v h =
      let data_ = backup_data-none site.data_dir _ v h in
      let logs =
        add_found-none (bytes "files/logs") site.logs.found site.logs.failure w data_.0
          (prefixed-none (bytes "failed to backup logs: ") _ data_.0 data_.1) in
      data_.2
      ∙ ap (λ x. x ++ walked_data site.data_dir) logs
      ∙ append-append w (walked (bytes "files/logs") site.logs) (walked_data site.data_dir)

  -- A component that succeeds has written its own entries, after what was there.
  pub backup_component-none :
      (component : Text) (site : Site) (w v : List Entry)
      → backup_component writes component site w ≡ (v, none)
      → v ≡ w ++ own component site
  unfolding backup_component own backup_database backup_config
  backup_component-none component site w v h =
      elim (Bool-cases (text_eq component (bytes "database"))) [
        | inl e ↦ rw e (
            made-none (bytes "database/tmidb.sql") site.dump (λ t. bytes "pg_dump failed: " ++ t) w
              v (rw (e, backup_component) at h))
        | inr d ↦ elim (Bool-cases (text_eq component (bytes "config"))) [
          | inl e ↦ rw d (
              rw e (
                made-none (bytes "config/supervisor.json") site.config_json
                  (λ t. bytes "failed to marshal config: " ++ t) w v
                  (rw e at (rw (d, backup_component) at h))))
          | inr c ↦ elim (Bool-cases (text_eq component (bytes "files"))) [
            | inl e ↦ rw d (
                rw c
                  (backup_files-none site w v (rw e at (rw c at (rw (d, backup_component) at h)))))
            | inr f ↦
                absurd
                  (let no = ap (λ r. r.1) (rw f at (rw c at (rw (d, backup_component) at h))) in cc)
          ]
        ]
      ]
