-- ===== src/Logger/Writer.antt =====
-- internal/logger/manager.go: writing an entry, and the rotation of the files. A file's size stays
-- below 2 ^ 63. What the file system answers is an argument; a rename of a file that is there works.
use tmidb_core.Base.{
  ℕ, zero, suc, ◌+◌, ◌-◌, ◌*◌, ◌%◌, ◌^◌, Bool, true, false, ◌&&◌, [], ◌∷◌, ◌++◌, Option, none, some,
  ltb, ◌==◌, if◌then◌else◌, length, Text, ℤ, pos, negsuc, pos_part, ltb_int,
}
use tmidb_core.Logger.{Content, Rotated, ProcessWriter}

-- An int64, from its bit pattern.
abbrev signed64 : ℕ → ℤ
signed64 n = if ltb n (2 ^ 63) then pos n else negsuc (2 ^ 64 - 1 - n)

-- `MaxFileSize*1024*1024`, which wraps.
unfoldable pub size_limit : ℤ → ℤ
size_limit (pos n) = signed64 (n * 2 ^ 20 % 2 ^ 64)
size_limit (negsuc n) = signed64 ((2 ^ 64 - suc n * 2 ^ 20 % 2 ^ 64) % 2 ^ 64)

-- How `compressFile` ends: it may fail before the new file is there, or leave it with some content.
pub data Compression : Type 0 where
  compressed not_opened : Compression
  broken : Content → Compression

-- What the file system answers to `Write`, up to the first failure.
pub record Disk : Type 0 where
  pub flush_fails : Bool
  pub close_fails : Bool
  pub compression : Compression
  pub open_fails : Bool
  pub write_fails : Bool
  pub newline_fails : Bool
  pub flush_due : Bool
  pub last_flush_fails : Bool

pub data WriteError : Type 0 where
  flush_failed close_failed open_failed write_failed : WriteError

-- `os.Rename` of the file `i` to `i + 1`, if it is there.
unfoldable pub move : ℕ → (ℕ → Option Content) → ℕ → Option Content
move i files k = elim (files i) [
  | none ↦ files k
  | some content ↦ if k == i then none else if k == suc i then some content else files k
]

-- The loop of `rotate`, from the file `n - 1` down to the file 0.
unfoldable pub shift : ℕ → (ℕ → Option Content) → ℕ → Option Content
shift zero files = files
shift (suc i) files = shift i (move i files)

abbrev pub put_file : ℕ → Content → (ℕ → Option Content) → ℕ → Option Content
put_file i content files k = if k == i then some content else files k

abbrev pub both : Bool → (ℕ → Option Content) → Rotated → Rotated
both true files rotated true = files
both true files rotated false = rotated false
both false files rotated true = rotated true
both false files rotated false = files

-- The current file becomes the file 0: the files, what is left of the current one.
unfoldable pub retire :
    Bool → Compression → Content → (ℕ → Option Content) → (ℕ → Option Content) × Content
retire false c file files = (put_file 0 file files, [])
retire true compressed file files = (put_file 0 file files, [])
retire true not_opened file files = (files, file)
retire true (broken part) file files = (put_file 0 part files, file)

unfoldable pub rotate : Disk → ProcessWriter → ProcessWriter × Option WriteError
rotate disk w =
    if disk.flush_fails
    then (w, some flush_failed)
    else if disk.close_fails
    then (w, some close_failed)
    else let shifted = shift (pos_part w.policy.max_files - 1) (w.rotated w.policy.compress) in
      let (files, file) = retire w.policy.compress disk.compression w.file shifted in
      let w' = record w { file = file; rotated = both w.policy.compress files w.rotated } in
      if disk.open_fails
      then (w', some open_failed)
      else (record w' { current_size = 0; rotation_count = w.rotation_count + 1 }, none)

-- `Write` once the file has room. What a failed write leaves in the buffer is not followed.
unfoldable pub append_entry : Disk → Text → ProcessWriter → ProcessWriter × Option WriteError
append_entry disk entry w =
    if disk.write_fails
    then (w, some write_failed)
    else if disk.newline_fails
    then (record w { file = w.file ++ entry ∷ [] }, some write_failed)
    else (
      record w { file = w.file ++ entry ∷ []; current_size = w.current_size + (length entry + 1) },
      if disk.flush_due && disk.last_flush_fails then some flush_failed else none,
    )

unfoldable pub write : Disk → Text → ProcessWriter → ProcessWriter × Option WriteError
write disk entry w =
    let (w', e) =
      if ltb_int (size_limit w.policy.max_file_size) (pos (w.current_size + length entry))
      then rotate disk w
      else (w, none) in
    elim e [ some e ↦ (w', some e) | none ↦ append_entry disk entry w' ]
