-- ===== src/Backup/Verified.antt =====
-- internal/supervisor/supervisor.go: the verification of an archive that can be read to its end.
use tmidb_core.Base.{
  ℕ, zero, suc, ◌<◌, ◌≡◌, refl, ◌∙◌, pos, Bool, true, false, ◌||◌, List, [], ◌∷◌, none, Text, bytes,
  length, ◌==◌, arith, All,
}
use tmidb_core.Base.Strings.{strip_prefix}
use tmidb_core.Backup.Verify.{
  Header, Next, header, end_of_file, Report, blank, name_has_prefix, note_component, note_size,
  verify_entries, conclude, verify_backup,
}

-- A reader of an archive in order: its headers, and then the end.
abbrev pub reading : List Header → ℕ → Next
reading [] i = end_of_file
reading (h ∷ hs) zero = header h
reading (h ∷ hs) (suc i) = reading hs i

-- Whether some entry's name has a prefix.
abbrev pub some_prefix : Text → List Header → Bool
some_prefix p [] = false
some_prefix p (h ∷ hs) = name_has_prefix p h.name || some_prefix p hs

abbrev pub Sized : List Header → Type 0
Sized = All (λ h. (n : ℕ) × (h.size ≡ pos n))

record Noted (hs : List Header) (r t : Report) : Type 0 where
  integrity : t.integrity ≡ r.integrity
  errors : t.errors ≡ r.errors
  valid : t.valid ≡ r.valid
  database : t.database ≡ (r.database || some_prefix (bytes "database/") hs)
  config : t.config ≡ (r.config || some_prefix (bytes "config/") hs)
  files : t.files ≡ (r.files || some_prefix (bytes "files/") hs)

starts : ℕ → Text → Bool
starts c [] = false
starts c (d ∷ t) = c == d

name_has_prefix-starts : (c : ℕ) (p t : Text) → name_has_prefix (c ∷ p) t ≡ true → starts c t ≡ true
unfolding strip_prefix starts
name_has_prefix-starts c p [] h = absurd (cc)
name_has_prefix-starts c p (d ∷ t) h = ground arith

-- The prefixes of the components exclude each other.
apart :
    (c d : ℕ) (p q t : Text)
    → (c == d) ≡ false
    → name_has_prefix (c ∷ p) t ≡ true
    → name_has_prefix (d ∷ q) t ≡ false
unfolding strip_prefix
apart c d p q [] ne h = absurd (cc)
apart c d p q (x ∷ t) ne h =
    ground (arith, name_has_prefix-starts c p (x ∷ t), name_has_prefix-starts d q (x ∷ t))

note_size-pos : (h : Header) (r : Report) → (n : ℕ) × (h.size ≡ pos n) → note_size h r ≡ r
unfolding note_size
note_size-pos h r (n, e) = rw (e, note_size) refl

note_component-Noted : (h : Header) (r : Report) → Noted (h ∷ []) r (note_component h.name r)
unfolding note_component
note_component-Noted h r =
    let dc = apart 100 99 (bytes "atabase/") (bytes "onfig/") h.name refl in
    let df = apart 100 102 (bytes "atabase/") (bytes "iles/") h.name refl in
    let cf = apart 99 102 (bytes "onfig/") (bytes "iles/") h.name refl in
    record {
      integrity = ground arith;
      errors = ground arith;
      valid = ground arith;
      database = ground (arith, dc, df, cf);
      config = ground (arith, dc, df, cf);
      files = ground (arith, dc, df, cf);
    }

step-Noted :
    (h : Header) (r : Report)
    → (n : ℕ) × (h.size ≡ pos n)
    → Noted (h ∷ []) r (note_size h (note_component h.name r))
step-Noted h r sized =
    rw (note_size-pos h (note_component h.name r) sized) (note_component-Noted h r)

Noted-cons :
    (h : Header) (hs : List Header) (r s t : Report)
    → Noted (h ∷ []) r s
    → Noted hs s t
    → Noted (h ∷ hs) r t
Noted-cons h hs r s t a b = record {
  integrity = b.integrity ∙ a.integrity;
  errors = b.errors ∙ a.errors;
  valid = b.valid ∙ a.valid;
  database = ground (arith, a.database, b.database);
  config = ground (arith, a.config, b.config);
  files = ground (arith, a.files, b.files);
}

verify_entries-Noted :
    (hs : List Header) (fuel : ℕ) (r : Report)
    → length hs < fuel
    → Sized hs
    → (t : Report) × (verify_entries fuel (reading hs) r ≡ (t, true)) × Noted hs r t
unfolding verify_entries
verify_entries-Noted hs zero r lt sized = absurd (omega arith)
verify_entries-Noted [] (suc fuel) r lt sized = (
  r,
  refl,
  record {
    integrity = refl;
    errors = refl;
    valid = refl;
    database = ground arith;
    config = ground arith;
    files = ground arith;
  },
)
verify_entries-Noted (h ∷ hs) (suc fuel) r lt sized =
    let s = note_size h (note_component h.name r) in
    let rest = verify_entries-Noted hs fuel s (omega arith) sized.1 in
    (rest.0, rest.1, Noted-cons h hs r s rest.0 (step-Noted h r sized.0) rest.2)

-- The verification of an archive that can be read to its end has ended after one round more than
-- the archive has entries. When the entries have sizes, it finds the archive valid, with
-- exactly the components that have an entry under their directory, and no errors.
pub verify_backup_lem :
    (hs : List Header) (fuel : ℕ)
    → length hs < fuel
    → Sized hs
    → verify_backup none none fuel (reading hs) ≡ (
      record {
        valid = true;
        integrity = true;
        database = some_prefix (bytes "database/") hs;
        config = some_prefix (bytes "config/") hs;
        files = some_prefix (bytes "files/") hs;
        errors = [];
      },
      true,
    )
unfolding verify_backup conclude
verify_backup_lem hs fuel lt sized =
    let done = verify_entries-Noted hs fuel blank lt sized in
    rw (done.1, verify_backup)
      (rw (done.2.errors, conclude)
        (cc (
          done.2.errors, done.2.valid, done.2.integrity, done.2.database, done.2.config,
          done.2.files,
        )))
