-- ===== src/Logger/Rotation.antt =====
-- internal/logger/manager.go: what `rotate` does to the files, and how large they get.

use tmidb_core.Base.{
  ℕ, zero, suc, ◌+◌, ◌-◌, ◌≤◌, ◌≡◌, refl, ap, subst, not, ◌∙◌, Bool, true, false, [], ◌∷◌, ◌++◌,
  Option, none, some, ltb, ◌==◌, if◌then◌else◌, length, Text, pos, pos_part, ltb_int, arith, ◌⊎◌,
  Bool-cases, Option-cases, inl, inr,
}
use tmidb_core.Logger.{Content, Rotated, ProcessWriter}
use tmidb_core.Logger.Writer.{
  Disk, compressed, size_limit, move, shift, put_file, both, retire, rotate, append_entry, write,
}

-- The files after the loop: each moved up by one; the last place keeps what it holds if nothing
-- moves there.
abbrev pub shifted : ℕ → (ℕ → Option Content) → ℕ → Option Content
shifted n files zero = if n == 0 then files 0 else none
shifted n files (suc k) =
    if ltb k n
    then elim (files k) [ some c ↦ some c | none ↦ if suc k == n then files (suc k) else none ]
    else files (suc k)

move_other :
    (i k : ℕ) (files : ℕ → Option Content)
    → (k == i) ≡ false
    → (k == suc i) ≡ false
    → move i files k ≡ files k
unfolding move
move_other i k files a b = elim (Option-cases (files i)) [
  | inl e ↦ rw (e, move)
  | inr (c, e) ↦ rw (e, move) (rw (a, b))
]

move_self : (i : ℕ) (files : ℕ → Option Content) → move i files i ≡ none
unfolding move
move_self i files = elim (Option-cases (files i)) [
  | inl e ↦ rw (e, move) e
  | inr (c, e) ↦ rw (e, move) (ground arith)
]

move_next :
    (i : ℕ) (files : ℕ → Option Content)
    → move i files (suc i) ≡ elim (files i) [ some c ↦ some c | none ↦ files (suc i) ]
unfolding move
move_next i files = elim (Option-cases (files i)) [
  | inl e ↦ rw (e, move)
  | inr (c, e) ↦ rw (e, move) (ground arith)
]

shift-shifted : (n : ℕ) (files : ℕ → Option Content) (k : ℕ) → shift n files k ≡ shifted n files k
unfolding shift
shift-shifted zero files zero = refl
shift-shifted zero files (suc k) = ground arith
shift-shifted (suc zero) files zero = move_self 0 files
shift-shifted (suc (suc i)) files zero =
    ground (arith, shift-shifted (suc i) (move (suc i) files) zero)
shift-shifted (suc i) files (suc k) =
    let ih = shift-shifted i (move i files) (suc k) in
    elim (Bool-cases (ltb k i)) [
      | inl below ↦
          let here : move i files k ≡ files k =
            move_other i k files (ground arith) (ground arith) in
          elim (Bool-cases (suc k == i)) [
            | inl last ↦
                let e : suc k ≡ i = ground arith in
                let gone : move i files (suc k) ≡ none = ap (move i files) e ∙ move_self i files in
                ih ∙ ground (arith, below, here, gone, last)
            | inr inside ↦ ih ∙ ground (arith, below, here, inside)
          ]
      | inr above ↦ elim (Bool-cases (k == i)) [
        | inl same ↦
            let e : k ≡ i = ground arith in
            let up : move i files (suc k)
                ≡ elim (files k) [ some c ↦ some c | none ↦ files (suc k) ] =
              subst
                (λ j.
                  move j files (suc k) ≡ elim (files k) [ some c ↦ some c | none ↦ files (suc k) ])
                e (move_next k files) in
            ih ∙ ground (arith, above, up, same)
        | inr beyond ↦
            let there : move i files (suc k) ≡ files (suc k) =
              move_other i (suc k) files (ground arith) (ground arith) in
            ih ∙ ground (arith, above, there, beyond)
      ]
    ]

-- Nothing fails while the files are rotated.
abbrev IsFine : Disk → Type 0
IsFine disk =
    (disk.flush_fails ≡ false)
    × (disk.close_fails ≡ false)
    × (disk.compression ≡ compressed)
    × (disk.open_fails ≡ false)

both_same :
    (c : Bool) (files : ℕ → Option Content) (rotated : Rotated) (k : ℕ)
    → both c files rotated c k ≡ files k
both_same true files rotated k = refl
both_same false files rotated k = refl

both-not :
    (c : Bool) (files : ℕ → Option Content) (rotated : Rotated) (k : ℕ)
    → both c files rotated (not c) k ≡ rotated (not c) k
both-not true files rotated k = refl
both-not false files rotated k = refl

abbrev moved : ProcessWriter → ℕ → Option Content
moved w = shift (pos_part w.policy.max_files - 1) (w.rotated w.policy.compress)

retire_compressed :
    (c : Bool) (file : Content) (files : ℕ → Option Content)
    → retire c compressed file files ≡ (put_file 0 file files, [])
unfolding retire
retire_compressed true file files = refl
retire_compressed false file files = refl

put_file-suc :
    (k : ℕ) (file : Content) (files : ℕ → Option Content)
    → put_file 0 file files (suc k) ≡ files (suc k)
put_file-suc k file files = ground arith

rotate_eq :
    (disk : Disk) (w : ProcessWriter)
    → IsFine disk
    → rotate disk w ≡ (
      record w {
        file = [];
        current_size = 0;
        rotation_count = w.rotation_count + 1;
        rotated = both w.policy.compress (put_file 0 w.file (moved w)) w.rotated;
      },
      none,
    )
unfolding rotate
rotate_eq disk w f =
    rw (f.0, f.1, f.2, f.3, rotate) (rw (retire_compressed w.policy.compress w.file (moved w)))

-- A rotation without a failure empties the file, makes of it the file 0, moves every rotated file
-- below the last place up by one, and leaves the files behind the last place, and those of the other
-- kind (compressed or not), as they were. With one file at most, nothing moves.
pub rotate_lem :
    (disk : Disk) (w : ProcessWriter) (k : ℕ)
    → IsFine disk
    → let r = rotate disk w in
      (r.1 ≡ none)
      × (r.0.file ≡ [])
      × (r.0.current_size ≡ 0)
      × (r.0.rotated w.policy.compress zero ≡ some w.file)
      × (r.0.rotated w.policy.compress (suc k)
          ≡ shifted (pos_part w.policy.max_files - 1) (w.rotated w.policy.compress) (suc k))
      × (r.0.rotated (not w.policy.compress) k ≡ w.rotated (not w.policy.compress) k)
rotate_lem disk w k f =
    let files = put_file 0 w.file (moved w) in
    rw (rotate_eq disk w f) (
      refl,
      refl,
      refl,
      both_same w.policy.compress files w.rotated zero,
      both_same w.policy.compress files w.rotated (suc k)
          ∙ put_file-suc k w.file (moved w)
          ∙ shift-shifted (pos_part w.policy.max_files - 1) (w.rotated w.policy.compress) (suc k),
      both-not w.policy.compress files w.rotated k,
    )

rotate-current_size :
    (disk : Disk) (w : ProcessWriter)
    → ((rotate disk w).0.current_size ≤ w.current_size)
      × (((rotate disk w).1 ≡ none) → (rotate disk w).0.current_size ≡ 0)
unfolding rotate
rotate-current_size disk w = elim (Bool-cases disk.flush_fails) [
  | inl f ↦ ground (arith, f)
  | inr f ↦ elim (Bool-cases disk.close_fails) [
    | inl c ↦ ground (arith, f, c)
    | inr c ↦ elim (Bool-cases disk.open_fails) [
      | inl o ↦ ground (arith, f, c, o)
      | inr o ↦ ground (arith, f, c, o)
    ]
  ]
]

append_entry-current_size :
    (disk : Disk) (entry : Text) (w : ProcessWriter)
    → (append_entry disk entry w).0.current_size ≤ w.current_size + (length entry + 1)
unfolding append_entry
append_entry-current_size disk entry w = ground arith

-- Whatever the file system answers, a write of an entry that is not longer than the limit, which is
-- not negative, keeps the size that the writer counts within one byte above the limit, the entry's
-- line feed, if it was so before.
pub write_bounds :
    (disk : Disk) (entry : Text) (w : ProcessWriter) (limit : ℕ)
    → size_limit w.policy.max_file_size ≡ pos limit
    → length entry ≤ limit
    → w.current_size ≤ limit + 1
    → (write disk entry w).0.current_size ≤ limit + 1
unfolding write
write_bounds disk entry w limit l short within =
    elim (Bool-cases
      (ltb_int (size_limit w.policy.max_file_size) (pos (w.current_size + length entry)))) [
        | inl full ↦ elim (Option-cases (rotate disk w).1) [
          | inl done ↦ ground (
            arith,
            full,
            done,
            rotate-current_size disk w,
            append_entry-current_size disk entry (rotate disk w).0,
          )
          | inr (e, failed) ↦ ground (arith, full, failed, rotate-current_size disk w)
        ]
        | inr room ↦ ground (arith, room, l, append_entry-current_size disk entry w)
      ]

-- Nothing fails while an entry is written.
abbrev IsSmooth : Disk → Type 0
IsSmooth disk =
    IsFine disk
    × (disk.write_fails ≡ false)
    × (disk.newline_fails ≡ false)
    × (disk.last_flush_fails ≡ false)

append_entry_eq :
    (disk : Disk) (entry : Text) (w : ProcessWriter)
    → IsSmooth disk
    → append_entry disk entry w ≡ (
      record w { file = w.file ++ entry ∷ []; current_size = w.current_size + (length entry + 1) },
      none,
    )
unfolding append_entry
append_entry_eq disk entry w f = ground (arith, f)

write_room :
    (disk : Disk) (entry : Text) (w : ProcessWriter)
    → ltb_int (size_limit w.policy.max_file_size) (pos (w.current_size + length entry)) ≡ false
    → write disk entry w ≡ append_entry disk entry w
unfolding write
write_room disk entry w room = ground (arith, room)

write_full :
    (disk : Disk) (entry : Text) (w : ProcessWriter)
    → ltb_int (size_limit w.policy.max_file_size) (pos (w.current_size + length entry)) ≡ true
    → (rotate disk w).1 ≡ none
    → write disk entry w ≡ append_entry disk entry (rotate disk w).0
unfolding write
write_full disk entry w full done = ground (arith, full, done)

-- An entry that is written without a failure stands last in the file, behind what the file held, or
-- alone in a new file while what the file held is the rotated file 0.
pub write_lem :
    (disk : Disk) (entry : Text) (w : ProcessWriter)
    → IsSmooth disk
    → ((write disk entry w).1 ≡ none)
      × (((write disk entry w).0.file ≡ w.file ++ entry ∷ [])
          ⊎ (((write disk entry w).0.file ≡ entry ∷ [])
              × ((write disk entry w).0.rotated w.policy.compress zero ≡ some w.file)))
write_lem disk entry w f =
    elim (Bool-cases
      (ltb_int (size_limit w.policy.max_file_size) (pos (w.current_size + length entry)))) [
        | inl full ↦
            let (done, empty, zero_size, first, second, rest) = rotate_lem disk w 0 f.0 in
            rw (write_full disk entry w full done, append_entry_eq disk entry (rotate disk w).0 f)
              (refl, inr (ap (λ c. c ++ entry ∷ []) empty, first))
        | inr room ↦
            rw (write_room disk entry w room, append_entry_eq disk entry w f) (refl, inl refl)
      ]
