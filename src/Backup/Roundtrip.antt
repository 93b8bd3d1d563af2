-- ===== src/Backup/Roundtrip.antt =====
-- internal/supervisor/supervisor.go: a restore finds what a backup has written.
use tmidb_core.Base.{
  ℕ, suc, ◌≡◌, refl, sym, ap, ◌∙◌, Bool, true, false, List, [], ◌∷◌, ◌++◌, map, Option, none, some,
  Text, bytes, length, text_eq, if◌then◌else◌, arith, Bool-cases, Option-cases, inl, inr, All,
  append-nil, append-append,
}
use tmidb_core.Backup.{Entry, Walk, Made, ok, error, Site, completed, failed, Progress, BackupInfo}
use tmidb_core.Backup.Archive.{
  join_path, file_entry, entry_of, backup_component, Host, restore_database, restore_component,
}
use tmidb_core.Backup.Perform.{
  Measured, over_components, step_progress, components_backed_up, perform_backup,
}
use tmidb_core.Backup.Written.{own, made, walked, walked_data, backup_component-none}

abbrev pub sql_name : Text
sql_name = bytes "database/tmidb.sql"

-- The entries of a backup whose components all succeed.
abbrev pub all_own : Site → List Text → List Entry
all_own site [] = []
all_own site (c ∷ cs) = own c site ++ all_own site cs

module _ (writes : Entry → Option Text) where
  pub over_components-own :
      (site : Site) (doing to_do : Text) (now i total : ℕ) (cs : List Text) (w : List Entry)
      (p : Progress)
      → let r =
          over_components
            (λ c v. backup_component writes c site v)
            doing
            to_do
            now
            i
            total
            cs
            w
            p in
        r.done ≡ true → r.state ≡ w ++ all_own site cs
  unfolding over_components
  over_components-own site doing to_do now i total [] w p h = sym (append-nil w)
  over_components-own site doing to_do now i total (c ∷ cs) w p h =
      elim (Option-cases (backup_component writes c site w).1) [
        | inl e ↦
            let v = (backup_component writes c site w).0 in
            let p2 = step_progress (doing ++ bytes " " ++ c) i total p in
            let rest =
              over_components-own site doing to_do now (suc i) total cs v p2
                (rw (e, over_components) at h) in
            let mine = backup_component-none writes c site w v (ap (λ o. (v, o)) e) in
            rw (e, over_components)
              (rest
                ∙ ap (λ x. x ++ all_own site cs) mine
                ∙ append-append w (own c site) (all_own site cs))
        | inr (t, e) ↦ absurd (let no : false ≡ true = rw (e, over_components) at h in cc)
      ]

-- Whether an entry has another name than the dump of the database.
abbrev pub Plain : List Entry → Type 0
Plain = All (λ e. text_eq e.name sql_name ≡ false)

Plain-walked :
    (dest : Text) (fs : List (Text × Option Text)) → Plain (map (entry_of (102 ∷ dest)) fs)
unfolding entry_of join_path text_eq
Plain-walked dest [] = tt
Plain-walked dest ((r, none) ∷ fs) = (ground arith, Plain-walked dest fs)
Plain-walked dest ((r, some t) ∷ fs) = (ground arith, Plain-walked dest fs)

Plain-append : (xs ys : List Entry) → Plain xs → Plain ys → Plain (xs ++ ys)
Plain-append [] ys h k = k
Plain-append (x ∷ xs) ys h k = (h.0, Plain-append xs ys h.1 k)

Plain-config : (m : Made) → Plain (made (bytes "config/supervisor.json") m)
unfolding text_eq
Plain-config (ok t) = (refl, tt)
Plain-config (error e) = tt

Plain-data : (w : Option Walk) → Plain (walked_data w)
Plain-data none = tt
Plain-data (some walk) = Plain-walked (bytes "iles/data") walk.found

Plain-own : (c : Text) (site : Site) → text_eq c (bytes "database") ≡ false → Plain (own c site)
unfolding own
Plain-own c site h = elim (Bool-cases (text_eq c (bytes "config"))) [
  | inl e ↦ rw (h, own) (rw e (Plain-config site.config_json))
  | inr e ↦
      rw (h, own)
        (rw e (
          Plain-append (walked (bytes "files/logs") site.logs) (walked_data site.data_dir)
            (Plain-walked (bytes "iles/logs") site.logs.found) (Plain-data site.data_dir)))
]

own-database :
    (c sql : Text) (site : Site)
    → text_eq c (bytes "database") ≡ true
    → site.dump ≡ ok sql
    → own c site ≡ file_entry sql_name sql ∷ []
unfolding own
own-database c sql site h d = rw (h, own) (rw d refl)

-- Whether a component is asked for.
abbrev pub includes_component : Text → List Text → Bool
includes_component c [] = false
includes_component c (d ∷ ds) = if text_eq d c then true else includes_component c ds

module _ (denied psql : Text → Option Text) where
  restore_database-Plain :
      (xs ys : List Entry) (host : Host)
      → Plain xs
      → restore_database denied psql (xs ++ ys) none host
        ≡ restore_database denied psql ys none host
  unfolding restore_database
  restore_database-Plain [] ys host h = refl
  restore_database-Plain (x ∷ xs) ys host h =
      rw (h.0, restore_database) (restore_database-Plain xs ys host h.1)

  restore_database-first :
      (sql : Text) (es : List Entry) (host : Host)
      → restore_database denied psql (file_entry sql_name sql ∷ es) none host
        ≡ (record host { ran = host.ran ++ sql ∷ [] }, psql sql)
  unfolding restore_database text_eq
  restore_database-first sql es host = refl

  restore_database-own :
      (site : Site) (sql : Text) (cs : List Text) (host : Host)
      → site.dump ≡ ok sql
      → includes_component (bytes "database") cs ≡ true
      → restore_database denied psql (all_own site cs) none host
        ≡ (record host { ran = host.ran ++ sql ∷ [] }, psql sql)
  restore_database-own site sql [] host d h = absurd (cc)
  restore_database-own site sql (c ∷ cs) host d h =
      elim (Bool-cases (text_eq c (bytes "database"))) [
        | inl e ↦
            rw (own-database c sql site e d) (restore_database-first sql (all_own site cs) host)
        | inr e ↦
            restore_database-Plain (own c site) (all_own site cs) host (Plain-own c site e)
            ∙ restore_database-own site sql cs host d (rw e at h)
      ]

module _ (writes : Entry → Option Text) (measure : List Entry → Measured) where
  -- A backup that ends as completed has written the entries of all of its components.
  pub perform_backup-own :
      (site : Site) (now : ℕ) (backup : BackupInfo) (p : Progress)
      → (perform_backup writes measure site none now backup p).backup.status ≡ completed
      → (perform_backup writes measure site none now backup p).entries
        ≡ all_own site backup.components
  unfolding perform_backup components_backed_up
  perform_backup-own site now backup p h =
      let r = components_backed_up writes measure site now backup p in
      elim (Bool-cases r.done) [
        | inl e ↦
            rw (e, perform_backup)
              (over_components-own writes site (bytes "Backing up") (bytes "backup") now 0
                (length backup.components) backup.components [] p e)
        | inr e ↦ absurd (let no : failed ≡ completed = rw (e, perform_backup) at h in cc)
      ]

module _ (writes : Entry → Option Text) (measure : List Entry → Measured)
    (denied psql parses : Text → Option Text) where
  -- When a backup ends as completed and the database is one of its components, a restore of the
  -- database from its archive, read without damage, runs exactly what `pg_dump` has put out, and
  -- nothing else.
  pub backup_database-restored :
      (site : Site) (sql : Text) (now : ℕ) (backup : BackupInfo) (p : Progress) (host : Host)
      → site.dump ≡ ok sql
      → includes_component (bytes "database") backup.components ≡ true
      → let b = perform_backup writes measure site none now backup p in
        b.backup.status ≡ completed
        → restore_component denied psql parses
            (bytes "database")
            (record { entries = b.entries; damage = none })
            host
          ≡ (record host { ran = host.ran ++ sql ∷ [] }, psql sql)
  unfolding restore_component text_eq
  backup_database-restored site sql now backup p host d asked h =
      rw (perform_backup-own writes measure site now backup p h)
        (restore_database-own denied psql site sql backup.components host d asked)
