-- ===== src/Backup/Damaged.antt =====
-- internal/supervisor/supervisor.go: the verification of an archive that cannot be read to its end.
use tmidb_core.Base.{
  ℕ, zero, suc, ◌+◌, ◌≤◌, ◌<◌, ◌≡◌, refl, ap, false, [], ◌∷◌, none, Text, length, length-append,
  arith,
}
use tmidb_core.Backup.Verify.{
  Header, Next, header, read_error, tar_error, invalid_size, Report, blank, note_component,
  note_size, note_error, verify_entries, conclude, verify_backup,
}

length-note_error : (e : Text) (r : Report) → length (note_error e r).errors ≡ suc (length r.errors)
unfolding note_error
length-note_error e r = omega (arith, length-append r.errors (tar_error e ∷ []))

note_component-errors : (name : Text) (r : Report) → (note_component name r).errors ≡ r.errors
unfolding note_component
note_component-errors name r = ground arith

length-note_size : (h : Header) (r : Report) → length r.errors ≤ length (note_size h r).errors
unfolding note_size
length-note_size h r = ground (arith, length-append r.errors (invalid_size h.name ∷ []))

length-note_header :
    (h : Header) (r : Report)
    → length r.errors ≤ length (note_size h (note_component h.name r)).errors
length-note_header h r = omega (
  arith,
  ap length (note_component-errors h.name r),
  length-note_size h (note_component h.name r),
)

-- What an error does again and again.
abbrev pub Sticky : (ℕ → Next) → Type 0
Sticky next = (i : ℕ) (t : Text) → next i ≡ read_error t → next (suc i) ≡ read_error t

verify_entries-hangs :
    (fuel n : ℕ) (next : ℕ → Next) (e : Text) (r : Report)
    → Sticky next
    → ((i : ℕ) → i < n → (h : Header) × (next i ≡ header h))
    → next n ≡ read_error e
    → ((verify_entries fuel next r).1 ≡ false)
      × (fuel + length r.errors ≤ n + length (verify_entries fuel next r).0.errors)
unfolding verify_entries
verify_entries-hangs zero n next e r sticky good bad = (refl, omega arith)
verify_entries-hangs (suc fuel) zero next e r sticky good bad =
    let rest =
      verify_entries-hangs fuel zero (λ i. next (suc i)) e (note_error e r) (λ i. sticky (suc i))
        (λ i lt. absurd (omega arith)) (sticky zero e bad) in
    rw (bad, verify_entries) (rest.0, omega (arith, rest.1, length-note_error e r))
verify_entries-hangs (suc fuel) (suc n) next e r sticky good bad =
    let now = good zero (omega arith) in
    let r2 = note_size now.0 (note_component now.0.name r) in
    let rest =
      verify_entries-hangs fuel n (λ i. next (suc i)) e r2 (λ i. sticky (suc i))
        (λ i lt. good (suc i) (omega arith)) bad in
    rw (now.1, verify_entries) (rest.0, omega (arith, rest.1, length-note_header now.0 r))

conclude-errors : (r : Report) → (conclude r).errors ≡ r.errors
unfolding conclude
conclude-errors r =
    elim r.errors
      as (λ x.
        (elim x as (λ z. Report) [ [] ↦ r | e ∷ es ↦ record r { valid = false } ]).errors
        ≡ r.errors) [ [] ↦ refl | x ∷ xs ↦ refl ]

-- A reader of archive/tar gives an error again once it has given it. When an archive is damaged
-- after `n` entries, its verification does not end in any number of rounds, and notes an error
-- more in each round after those entries.
pub verify_backup_hangs :
    (fuel n : ℕ) (next : ℕ → Next) (e : Text)
    → Sticky next
    → ((i : ℕ) → i < n → (h : Header) × (next i ≡ header h))
    → next n ≡ read_error e
    → ((verify_backup none none fuel next).1 ≡ false)
      × (fuel ≤ n + length (verify_backup none none fuel next).0.errors)
unfolding verify_backup
verify_backup_hangs fuel n next e sticky good bad =
    let done = verify_entries-hangs fuel n next e blank sticky good bad in
    (done.0, omega (arith, done.1, ap length (conclude-errors (verify_entries fuel next blank).0)))
