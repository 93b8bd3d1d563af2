-- ===== src/Backup/Placed.antt =====
-- internal/supervisor/supervisor.go: what a restore of the files leaves at a path.
use tmidb_core.Base.{
  ◌≡◌, refl, ap, ◌∙◌, ◌&&◌, List, [], ◌∷◌, ◌++◌, Option, none, some, Text, bytes, text_eq,
  if◌then◌else◌, arith, Option-cases, inl, inr,
}
use tmidb_core.Base.Strings.{strip_prefix}
use tmidb_core.Base.Dict.{lookup, lookup-insert}
use tmidb_core.Backup.{Entry}
use tmidb_core.Backup.Archive.{Host, restore_files, restore_entry}

-- What one entry puts at a path, and what the last of some entries does.
abbrev pub put_at : Text → Entry → Option Text
put_at path e = elim (strip_prefix (bytes "files/") e.name) [
  | none ↦ none
  | some target ↦ if e.regular && text_eq target path then some e.content else none
]

abbrev pub first_of {ℓ} : {A : Type ℓ} → Option A → Option A → Option A
first_of (some a) o = some a
first_of none o = o

unfoldable pub final : Text → List Entry → Option Text
final path [] = none
final path (e ∷ es) = first_of (final path es) (put_at path e)

pub final-append :
    (path : Text) (xs ys : List Entry)
    → final path (xs ++ ys) ≡ first_of (final path ys) (final path xs)
unfolding final
final-append path [] ys = ground arith
final-append path (x ∷ xs) ys = ground (arith, final-append path xs ys)

pub first_of-first_of :
    (a b c : Option Text) → first_of a (first_of b c) ≡ first_of (first_of a b) c
first_of-first_of a b c = ground arith

pub first_of-none : (a : Option Text) → first_of a none ≡ a
first_of-none a = ground arith

restore_entry-lookup :
    (path target : Text) (e : Entry) (host : Host)
    → strip_prefix (bytes "files/") e.name ≡ some target
    → lookup path (restore_entry target e host).files
      ≡ first_of (put_at path e) (lookup path host.files)
unfolding restore_entry
restore_entry-lookup path target e host h =
    ground (arith, lookup-insert target path e.content host.files)

module _ (denied psql : Text → Option Text) where
  pub restore_files-lookup :
      (path : Text) (es : List Entry) (host : Host)
      → ((t : Text) → denied t ≡ none)
      → lookup path (restore_files denied psql es none host).0.files
        ≡ first_of (final path es) (lookup path host.files)
  unfolding restore_files final
  restore_files-lookup path [] host free = refl
  restore_files-lookup path (e ∷ es) host free =
      elim (Option-cases (strip_prefix (bytes "files/") e.name)) [
        | inl n ↦ rw (n, restore_files) (ground (arith, restore_files-lookup path es host free))
        | inr (target, n) ↦
            let rest = restore_files-lookup path es (restore_entry target e host) free in
            let first = restore_entry-lookup path target e host n in
            rw (n, restore_files)
              (rw (free target) (
                rest
                ∙ ap (first_of (final path es)) first
                ∙ first_of-first_of (final path es) (put_at path e) (lookup path host.files)))
      ]
