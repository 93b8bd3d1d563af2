-- ===== src/Backup/Files.antt =====
-- internal/supervisor/supervisor.go: where a restore puts the files of a backup.
use tmidb_core.Base.{
  ℕ, ◌≡◌, refl, sym, ap, ◌∙◌, true, false, List, [], ◌∷◌, ◌++◌, map, Option, none, some, Text,
  bytes, text_eq, text_eq_iff, if◌then◌else◌, arith, Bool-cases, inl, inr,
}
use tmidb_core.Base.Strings.{strip_prefix}
use tmidb_core.Base.Dict.{lookup, Distinct}
use tmidb_core.Backup.{Entry, Walk, Made, ok, error, Site, completed, Progress, BackupInfo}
use tmidb_core.Backup.Archive.{join_path, entry_of, Host, restore_component}
use tmidb_core.Backup.Perform.{Measured, perform_backup}
use tmidb_core.Backup.Written.{own, made, walked, walked_data}
use tmidb_core.Backup.Roundtrip.{all_own, includes_component, perform_backup-own}
use tmidb_core.Backup.Placed.{
  put_at, first_of, final, final-append, first_of-first_of, first_of-none, restore_files-lookup,
}

abbrev pub log_path : Text → Text
log_path rel = bytes "logs/" ++ rel

put_at-data :
    (rel : Text) (f : Text × Option Text)
    → put_at (log_path rel) (entry_of (bytes "files/data") f) ≡ none
unfolding entry_of join_path strip_prefix text_eq
put_at-data rel (r, none) = ground arith
put_at-data rel (r, some t) = ground arith

put_at-logs :
    (rel r : Text) (c : Option Text)
    → text_eq rel (bytes ".") ≡ false
    → put_at (log_path rel) (entry_of (bytes "files/logs") (r, c))
      ≡ (if text_eq r rel then c else none)
unfolding entry_of join_path strip_prefix text_eq
put_at-logs rel r none h = ground arith
put_at-logs rel r (some t) h = elim (Bool-cases (text_eq r (bytes "."))) [
  | inl e ↦
      let here : r ≡ bytes "." = (text_eq_iff r (bytes ".")).0 e in
      rw here (ground (arith, h, text_eq_iff (bytes ".") rel, text_eq_iff rel (bytes ".")))
  | inr e ↦ rw (e, entry_of, join_path) refl
]

final-data :
    (rel : Text) (fs : List (Text × Option Text))
    → final (log_path rel) (map (entry_of (bytes "files/data")) fs) ≡ none
unfolding final
final-data rel [] = refl
final-data rel (f ∷ fs) = rw (final-data rel fs) (put_at-data rel f)

final-walked_data : (rel : Text) (w : Option Walk) → final (log_path rel) (walked_data w) ≡ none
unfolding final
final-walked_data rel none = refl
final-walked_data rel (some w) = final-data rel w.found

final-logs :
    (rel : Text) (fs : List (Text × Option Text))
    → text_eq rel (bytes ".") ≡ false
    → Distinct fs
    → final (log_path rel) (map (entry_of (bytes "files/logs")) fs)
      ≡ (elim (lookup rel fs) [ none ↦ none | some c ↦ c ])
unfolding final lookup
final-logs rel [] h d = refl
final-logs rel ((r, c) ∷ fs) h d =
    let rest = final-logs rel fs h d.1 in
    let first = put_at-logs rel r c h in
    elim (Bool-cases (text_eq r rel)) [
      | inl e ↦
          let is : r ≡ rel = (text_eq_iff r rel).0 e in
          let gone : lookup rel fs ≡ none = rw is at d.0 in
          rw e (
            ap (λ o. first_of o (put_at (log_path rel) (entry_of (bytes "files/logs") (r, c))))
              (rw gone at rest)
            ∙ (rw e at first))
      | inr e ↦
          let others = final (log_path rel) (map (entry_of (bytes "files/logs")) fs) in
          rw e (ap (first_of others) (rw e at first) ∙ first_of-none others ∙ rest)
    ]

module _ (site : Site) (rel t : Text) (named : text_eq rel (bytes ".") ≡ false)
    (once : Distinct site.logs.found) (there : lookup rel site.logs.found ≡ some (some t)) where
  final-files :
      final (log_path rel) (walked (bytes "files/logs") site.logs ++ walked_data site.data_dir)
      ≡ some t
  final-files =
      let logs = walked (bytes "files/logs") site.logs in
      final-append (log_path rel) logs (walked_data site.data_dir)
      ∙ ap (λ o. first_of o (final (log_path rel) logs)) (final-walked_data rel site.data_dir)
      ∙ final-logs rel site.logs.found named once
      ∙ rw there refl

  final-made_database :
      (m : Made) → final (log_path rel) (made (bytes "database/tmidb.sql") m) ≡ none
  unfolding final strip_prefix
  final-made_database (ok x) = refl
  final-made_database (error x) = refl

  final-made_config :
      (m : Made) → final (log_path rel) (made (bytes "config/supervisor.json") m) ≡ none
  unfolding final strip_prefix
  final-made_config (ok x) = refl
  final-made_config (error x) = refl

  final-own : (c : Text) → first_of (final (log_path rel) (own c site)) (some t) ≡ some t
  unfolding own
  final-own c = elim (Bool-cases (text_eq c (bytes "database"))) [
    | inl e ↦ rw (e, own) (rw (final-made_database site.dump) refl)
    | inr d ↦ elim (Bool-cases (text_eq c (bytes "config"))) [
      | inl e ↦ rw (d, own) (rw e (rw (final-made_config site.config_json) refl))
      | inr e ↦ rw (d, own) (rw e (rw final-files refl))
    ]
  ]

  own-files :
      own (bytes "files") site ≡ walked (bytes "files/logs") site.logs ++ walked_data site.data_dir
  unfolding own text_eq
  own-files = refl

  final-all_own_or :
      (cs : List Text) → first_of (final (log_path rel) (all_own site cs)) (some t) ≡ some t
  unfolding final
  final-all_own_or [] = refl
  final-all_own_or (c ∷ cs) =
      ap (λ o. first_of o (some t)) (final-append (log_path rel) (own c site) (all_own site cs))
      ∙ sym (
          first_of-first_of (final (log_path rel) (all_own site cs))
            (final (log_path rel) (own c site)) (some t))
      ∙ ap (first_of (final (log_path rel) (all_own site cs))) (final-own c)
      ∙ final-all_own_or cs

  final-all_own :
      (cs : List Text)
      → includes_component (bytes "files") cs ≡ true
      → final (log_path rel) (all_own site cs) ≡ some t
  unfolding final
  final-all_own [] h = absurd (cc)
  final-all_own (c ∷ cs) h = elim (Bool-cases (text_eq c (bytes "files"))) [
    | inl e ↦
        let is : c ≡ bytes "files" = (text_eq_iff c (bytes "files")).0 e in
        final-append (log_path rel) (own c site) (all_own site cs)
        ∙ ap
            (λ x.
              first_of (final (log_path rel) (all_own site cs)) (final (log_path rel) (own x site)))
            is
        ∙ ap (λ x. first_of (final (log_path rel) (all_own site cs)) (final (log_path rel) x))
            own-files
        ∙ ap (first_of (final (log_path rel) (all_own site cs))) final-files
        ∙ final-all_own_or cs
    | inr e ↦
        final-append (log_path rel) (own c site) (all_own site cs)
        ∙ ap (λ o. first_of o (final (log_path rel) (own c site))) (final-all_own cs (rw e at h))
  ]

module _ (writes : Entry → Option Text) (measure : List Entry → Measured)
    (denied psql parses : Text → Option Text) where
  -- When a backup ends as completed and the files are one of its components, a restore of the files
  -- from its archive, read without damage and where no file is denied, puts each regular file of the log directory, with
  -- its content, under logs/ in the working directory.
  pub backup_files-restored :
      (site : Site) (rel t : Text) (now : ℕ) (backup : BackupInfo) (p : Progress) (host : Host)
      → ((path : Text) → denied path ≡ none)
      → text_eq rel (bytes ".") ≡ false
      → Distinct site.logs.found
      → lookup rel site.logs.found ≡ some (some t)
      → includes_component (bytes "files") backup.components ≡ true
      → (perform_backup writes measure site none now backup p).backup.status ≡ completed
      → lookup
          (log_path rel)
          (restore_component denied psql parses
            (bytes "files")
            (record {
              entries = (perform_backup writes measure site none now backup p).entries;
              damage = none;
            })
            host).0.files
        ≡ some t
  unfolding restore_component text_eq
  backup_files-restored site rel t now backup p host free named once there asked h =
      rw (perform_backup-own writes measure site now backup p h) (
        restore_files-lookup denied psql (log_path rel) (all_own site backup.components) host free
        ∙ ap (λ o. first_of o (lookup (log_path rel) host.files))
            (final-all_own site rel t named once there backup.components asked))
