-- ===== src/Backup/Verify.antt =====
-- internal/supervisor/supervisor.go: the verification of an archive.
use tmidb_core.Base.{
  ℕ, zero, suc, ℤ, pos, negsuc, Bool, true, false, List, [], ◌∷◌, ◌++◌, Option, none, some, Text,
  bytes, if◌then◌else◌,
}
use tmidb_core.Base.Strings.{strip_prefix, is_some}

pub record Header : Type 0 where
  pub name : Text
  pub size : ℤ

-- What `tarReader.Next` returns.
pub data Next : Type 0 where
  header : Header → Next
  end_of_file : Next
  read_error : Text → Next

pub data Flaw : Type 0 where
  cannot_open : Text → Flaw
  invalid_gzip : Text → Flaw
  tar_error : Text → Flaw
  invalid_size : Text → Flaw

-- The result, with which components are "valid".
pub record Report : Type 0 where
  pub valid : Bool
  pub integrity : Bool
  pub database : Bool
  pub config : Bool
  pub files : Bool
  pub errors : List Flaw

abbrev pub blank : Report
blank = record {
  valid = true;
  integrity = true;
  database = false;
  config = false;
  files = false;
  errors = [];
}

abbrev pub name_has_prefix : Text → Text → Bool
name_has_prefix p t = is_some (strip_prefix p t)

unfoldable pub note_component : Text → Report → Report
note_component name r =
    if name_has_prefix (bytes "database/") name
    then record r { database = true }
    else if name_has_prefix (bytes "config/") name
    then record r { config = true }
    else if name_has_prefix (bytes "files/") name
    then record r { files = true }
    else r

unfoldable pub note_size : Header → Report → Report
note_size h r = elim h.size [
  | pos n ↦ r
  | negsuc n ↦ record r { errors = r.errors ++ invalid_size h.name ∷ [] }
]

unfoldable pub note_error : Text → Report → Report
note_error e r = record r { errors = r.errors ++ tar_error e ∷ []; integrity = false }

-- The loop over the archive, for at most so many rounds: true when it has ended. After a read error
-- it goes on.
unfoldable pub verify_entries : ℕ → (ℕ → Next) → Report → Report × Bool
verify_entries zero next r = (r, false)
verify_entries (suc fuel) next r = elim (next zero) [
  | header h ↦ verify_entries fuel (λ i. next (suc i)) (note_size h (note_component h.name r))
  | end_of_file ↦ (r, true)
  | read_error e ↦ verify_entries fuel (λ i. next (suc i)) (note_error e r)
]

unfoldable pub conclude : Report → Report
conclude r = elim r.errors [ [] ↦ r | e ∷ es ↦ record r { valid = false } ]

abbrev pub broken_report : Flaw → Report
broken_report e = record blank { valid = false; integrity = false; errors = e ∷ [] }

-- `opens` and `unzips` are the errors of opening the file and the gzip reader.
unfoldable pub verify_backup : Option Text → Option Text → ℕ → (ℕ → Next) → Report × Bool
verify_backup (some e) unzips fuel next = (broken_report (cannot_open e), true)
verify_backup none (some e) fuel next = (broken_report (invalid_gzip e), true)
verify_backup none none fuel next = let r = verify_entries fuel next blank in (conclude r.0, r.1)
