-- ===== src/Supervisor/Logged.antt =====
-- internal/supervisor/supervisor.go: an independent description of the entries that the log files of a
-- component hold, and that the readers find them.
use tmidb_core.Base.{
  ℕ, zero, suc, ◌≤◌, ◌<◌, ◌+◌, ◌≡◌, ◌⊎◌, refl, ap, Bool, true, false, List, [], ◌∷◌, ◌++◌, Option,
  none, some, Text, bytes, is_empty, ◌==◌, if◌then◌else◌, arith, Bool-cases, inl, inr,
}
use mathlib.Core.List.{filter_map}
use tmidb_core.Base.Strings.{trim_space}
use tmidb_core.Ipc.{LogEntry}
use tmidb_core.Supervisor.Recent.{
  LogFile, absent, lines, decode_lines, read_log_file, read_rotated, all_entries,
}

-- The independent description of what the log files hold.
module _ (decode : Text → Option LogEntry) where
  -- A line of a log file counts when it is not blank and can be decoded.
  abbrev pub entry_of_line : Text → Option LogEntry
  entry_of_line l = if is_empty (trim_space l) then none else decode (trim_space l)

  -- The entries of a file that can be read to its end.
  abbrev pub entries_in : LogFile → List LogEntry
  entries_in absent = []
  entries_in (lines ls (some e)) = []
  entries_in (lines ls none) = filter_map entry_of_line ls

abbrev pub readable : LogFile → Bool
readable absent = false
readable (lines ls (some e)) = false
readable (lines ls none) = true

module _ (decode : Text → Option LogEntry) (digit : ℕ → Text) (files : Text → LogFile) where
  abbrev pub rotated_file : Text → ℕ → LogFile
  rotated_file base i = files (base ++ bytes "." ++ digit i ++ bytes ".log")

  -- The entries of the current file and of the first `k` rotated files, the last of them in front.
  abbrev pub logged : Text → ℕ → List LogEntry
  logged base zero = entries_in decode (files (base ++ bytes ".log"))
  logged base (suc k) = entries_in decode (rotated_file base k) ++ logged base k

  -- There are `k` rotated files without a gap, of which ten are looked at.
  pub record Rotated (base : Text) (k : ℕ) : Type 0 where
    pub all : (i : ℕ) → i < k → readable (rotated_file base i) ≡ true
    pub few : k ≤ 10
    pub last : (k ≡ 10) ⊎ (readable (rotated_file base k) ≡ false)

module _ (decode : Text → Option LogEntry)
    (sort_slice : (LogEntry → LogEntry → Bool) → List LogEntry → List LogEntry) (digit : ℕ → Text)
    (files : Text → LogFile) where
  decode_lines-filter_map :
      (ls : List Text)
      → decode_lines decode sort_slice digit files ls ≡ filter_map (entry_of_line decode) ls
  unfolding decode_lines filter_map
  decode_lines-filter_map [] = refl
  decode_lines-filter_map (l ∷ ls) = ground (arith, decode_lines-filter_map ls)

  before_suc :
      (base : Text) (i : ℕ)
      → ((j : ℕ) → j < i → readable (rotated_file decode digit files base j) ≡ true)
      → readable (rotated_file decode digit files base i) ≡ true
      → (j : ℕ) → j < suc i
      → readable (rotated_file decode digit files base j) ≡ true
  before_suc base i before good j lt = elim (Bool-cases (j == i)) [
    | inl e ↦ let is : j ≡ i = ground arith in rw is good
    | inr e ↦ before j (ground arith)
  ]

  current :
      (file : LogFile)
      → (elim (if readable file then some (entries_in decode file) else none) [
        | none ↦ []
        | some es ↦ es
      ])
        ≡ entries_in decode file
  current absent = refl
  current (lines ls (some e)) = refl
  current (lines ls none) = refl

  -- A file can be read exactly when it is `readable`, and then gives its entries.
  read_log_file_lem :
      (path : Text)
      → read_log_file decode sort_slice digit files path
        ≡ (if readable (files path) then some (entries_in decode (files path)) else none)
  unfolding read_log_file
  read_log_file_lem path =
      elim (files path)
        as (λ f.
          (elim f as (λ x. Option (List LogEntry)) [
            | absent ↦ none
            | lines ls (some e) ↦ none
            | lines ls none ↦ some (decode_lines decode sort_slice digit files ls)
          ])
          ≡ (if readable f then some (entries_in decode f) else none)) [
            | absent ↦ refl
            | lines ls (some e) ↦ refl
            | lines ls none ↦ ap some (decode_lines-filter_map ls)
          ]

  read_rotated_lem :
      (left i : ℕ) (base : Text) (all : List LogEntry)
      → all ≡ logged decode digit files base i
      → ((j : ℕ) → j < i → readable (rotated_file decode digit files base j) ≡ true)
      → i + left ≡ 10
      → (k : ℕ) × Rotated decode digit files base k
        × (read_rotated decode sort_slice digit files left i base all
            ≡ logged decode digit files base k)
  unfolding read_rotated
  read_rotated_lem zero i base all e before count =
      (i, record { all = before; few = omega arith; last = inl (omega arith) }, e)
  read_rotated_lem (suc left) i base all e before count =
      let path = base ++ bytes "." ++ digit i ++ bytes ".log" in
      let file = files path in
      let reads = read_log_file_lem path in
      elim (Bool-cases (readable file)) [
        | inr bad ↦ (
          i,
          record { all = before; few = omega arith; last = inr bad },
          rw (reads, read_rotated) (rw bad e),
        )
        | inl good ↦
            let rest =
              read_rotated_lem left (suc i) base (entries_in decode file ++ all)
                (ap (λ x. entries_in decode file ++ x) e) (before_suc base i before good)
                (omega arith) in
            (rest.0, rest.1, rw (reads, read_rotated) (rw good rest.2))
      ]

  -- The entries that are read are those of the current file and of the rotated files without a gap.
  pub all_entries-logged :
      (log_dir component : Text)
      → let base = log_dir ++ bytes "/" ++ component in
        (k : ℕ) × Rotated decode digit files base k
        × (all_entries decode sort_slice digit files log_dir component
            ≡ logged decode digit files base k)
  unfolding all_entries
  all_entries-logged log_dir component =
      let base = log_dir ++ bytes "/" ++ component in
      let reads = read_log_file_lem (base ++ bytes ".log") in
      read_rotated_lem 10 0 base _ (rw reads (current (files (base ++ bytes ".log"))))
        (λ j lt. absurd (omega arith)) refl
