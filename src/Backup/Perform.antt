-- ===== src/Backup/Perform.antt =====
-- internal/supervisor/supervisor.go: the goroutines of a backup and of a restore.
use tmidb_core.Base.{
  ℕ, suc, Bool, true, false, List, [], ◌∷◌, ◌++◌, Option, none, some, Text, bytes, length,
  if◌then◌else◌,
}
use tmidb_core.Backup.{Entry, Site, completed, failed, part, whole, Progress, BackupInfo}
use tmidb_core.Backup.Archive.{backup_component, Host, Archive, restore_component}

abbrev pub fail_progress : Text → ℕ → Progress → Progress
fail_progress e now p = record p { status = failed; error = e; end_time = some now }

abbrev pub step_progress : Text → ℕ → ℕ → Progress → Progress
step_progress current i total p = record p { current = current; percent = part i total }

abbrev pub finish_progress : Text → ℕ → Progress → Progress
finish_progress current now p = record p {
  current = current;
  percent = whole;
  status = completed;
  end_time = some now;
}

-- A loop over components: what has been done to a state, the progress, and whether all went well.
pub record Looped (S : Type 0) : Type 0 where
  pub state : S
  pub progress : Progress
  pub done : Bool

-- The loop over the components of `performBackup` and of `performRestore`, which differ in what a
-- component does, and in the words for it. A time is when the loop ends.
module _ {S : Type 0} (action : Text → S → S × Option Text) (doing to_do : Text) (now : ℕ) where
  unfoldable pub failure_of : Text → Text → Text
  failure_of component e = bytes "failed to " ++ to_do ++ bytes " " ++ component ++ bytes ": " ++ e

  unfoldable pub over_components : ℕ → ℕ → List Text → S → Progress → Looped S
  over_components i total [] s p = record { state = s; progress = p; done = true }
  over_components i total (component ∷ cs) s p =
      let p2 = step_progress (doing ++ bytes " " ++ component) i total p in
      elim (action component s).1 [
        | none ↦ over_components (suc i) total cs (action component s).0 p2
        | some e ↦ record {
          state = (action component s).0;
          progress = fail_progress (failure_of component e) now p2;
          done = false;
        }
      ]

-- What a backup leaves: its record, its progress, and the entries of the archive.
pub record Performed : Type 0 where
  pub backup : BackupInfo
  pub progress : Progress
  pub entries : List Entry

-- What the file has when it is measured: a size, unless `Stat` fails, and a checksum, unless it
-- cannot be read.
pub record Measured : Type 0 where
  pub size : Option ℕ
  pub checksum : Option Text

abbrev pub or_measured {ℓ} : {A : Type ℓ} → A → Option A → A
or_measured a none = a
or_measured a (some b) = b

-- `measure` is what the size and the checksum are while the archive is still open: the writers are
-- closed only when the function returns.
module _ (writes : Entry → Option Text) (measure : List Entry → Measured) where
  -- The configuration and the other things that a backup reads are as `site` says throughout.
  unfoldable pub components_backed_up : Site → ℕ → BackupInfo → Progress → Looped (List Entry)
  components_backed_up site now backup p =
      over_components (λ c w. backup_component writes c site w) (bytes "Backing up")
        (bytes "backup") now 0 (length backup.components) backup.components [] p

  unfoldable pub perform_backup : Site → Option Text → ℕ → BackupInfo → Progress → Performed
  perform_backup site (some e) now backup p = record {
    backup = record backup { status = failed };
    progress = fail_progress (bytes "failed to create backup file: " ++ e) now p;
    entries = [];
  }
  perform_backup site none now backup p =
      let r = components_backed_up site now backup p in
      if r.done
      then record {
        backup = record backup {
          status = completed;
          size = or_measured backup.size (measure r.state).size;
          checksum = or_measured backup.checksum (measure r.state).checksum;
        };
        progress = finish_progress (bytes "Finalizing backup") now r.progress;
        entries = r.state;
      }
      else record {
        backup = record backup { status = failed };
        progress = r.progress;
        entries = r.state;
      }

module _ (denied psql parses : Text → Option Text) where
  -- `opens` is the error of opening the file or the gzip reader for a component, which opens the
  -- file again.
  unfoldable pub open_and_restore :
      (Text → Option Text) → Archive → Text → Host → Host × Option Text
  open_and_restore opens a component host = elim (opens component) [
    | some e ↦ (host, some e)
    | none ↦ restore_component denied psql parses component a host
  ]

  -- The first argument is the text of an error of opening the file or the gzip reader, if any.
  unfoldable pub perform_restore :
      Option Text
      → (Text → Option Text)
      → Archive
      → List Text
      → ℕ
      → Host
      → Progress
      → Host × Progress
  perform_restore (some e) opens a components now host p = (host, fail_progress e now p)
  perform_restore none opens a components now host p =
      let r =
        over_components (open_and_restore opens a) (bytes "Restoring") (bytes "restore") now 0
          (length components) components host p in
      if r.done
      then (r.state, finish_progress (bytes "Restore completed") now r.progress)
      else (r.state, r.progress)
