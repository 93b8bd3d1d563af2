-- ===== src/Base/Dict.antt =====
-- Go maps with string keys: association lists, in the order in which a `range` loop meets them.
use Prim.Native.Nat.{◌+◌}
use mathlib.Core.Path.{◌≡◌, refl, ap, ◌∙◌}
use mathlib.Core.Logic.{inl, inr}
use mathlib.Core.Bool.{Bool, not}
use mathlib.Core.Option.{Option, none, some}
use mathlib.Core.List.{List, [], ◌∷◌}
use native.Mathlib.Omega.{arith}
use tmidb_core.Base.Tests.{if◌then◌else◌, Bool-cases}
use tmidb_core.Base.Lists.{length}
use tmidb_core.Base.Bytes.{Text, text_eq, text_eq_iff}

module _ {ℓ} {V : Type ℓ} where
  unfoldable pub lookup : Text → List (Text × V) → Option V
  lookup k [] = none
  lookup k ((j, v) ∷ m) = if text_eq j k then some v else lookup k m

  -- `m[k] = v`
  unfoldable pub insert : Text → V → List (Text × V) → List (Text × V)
  insert k v [] = (k, v) ∷ []
  insert k v ((j, w) ∷ m) = if text_eq j k then (k, v) ∷ m else (j, w) ∷ insert k v m

  -- `delete(m, k)`
  unfoldable pub delete : Text → List (Text × V) → List (Text × V)
  delete k [] = []
  delete k ((j, w) ∷ m) = let rest = delete k m in if text_eq j k then rest else (j, w) ∷ rest

  -- `for _, k := range ks { delete(m, k) }`
  unfoldable pub delete_keys : List Text → List (Text × V) → List (Text × V)
  delete_keys [] m = m
  delete_keys (k ∷ ks) m = delete_keys ks (delete k m)

  -- `for k, v := range m { if p(k, v) { ks = append(ks, k) } }`
  unfoldable pub select : (Text → V → Bool) → List (Text × V) → List Text
  select p [] = []
  select p ((k, v) ∷ m) = let rest = select p m in if p k v then k ∷ rest else rest

  -- The entries that satisfy a test, the reference for a selection that is then deleted.
  unfoldable pub keep : (Text → V → Bool) → List (Text × V) → List (Text × V)
  keep p [] = []
  keep p ((k, v) ∷ m) = let rest = keep p m in if p k v then (k, v) ∷ rest else rest

  -- No key stands twice.
  abbrev pub Distinct : List (Text × V) → Type ℓ
  Distinct [] = Unit
  Distinct ((k, v) ∷ m) = (lookup k m ≡ none) × Distinct m

  pub lookup-insert :
      (k j : Text) (v : V) (m : List (Text × V))
      → lookup j (insert k v m) ≡ (if text_eq k j then some v else lookup j m)
  unfolding lookup insert
  lookup-insert k j v [] = refl
  lookup-insert k j v ((i, w) ∷ m) =
      ground (arith, text_eq_iff k j, text_eq_iff i k, text_eq_iff i j, lookup-insert k j v m)

  pub lookup-delete :
      (k j : Text) (m : List (Text × V))
      → lookup j (delete k m) ≡ (if text_eq k j then none else lookup j m)
  unfolding lookup delete
  lookup-delete k j [] = ground arith
  lookup-delete k j ((i, w) ∷ m) =
      ground (arith, text_eq_iff k j, text_eq_iff i k, text_eq_iff i j, lookup-delete k j m)

  pub insert-Distinct :
      (k : Text) (v : V) (m : List (Text × V)) → Distinct m → Distinct (insert k v m)
  unfolding insert lookup
  insert-Distinct k v [] d = (refl, tt)
  insert-Distinct k v ((i, w) ∷ m) d =
      ground (arith, text_eq_iff i k, text_eq_iff k i, lookup-insert k i v m, insert-Distinct k v m)

  pub delete_absent : (k : Text) (m : List (Text × V)) → lookup k m ≡ none → delete k m ≡ m
  unfolding delete lookup
  delete_absent k [] h = refl
  delete_absent k ((i, w) ∷ m) h = ground (arith, delete_absent k m)

  pub delete-Distinct : (k : Text) (m : List (Text × V)) → Distinct m → Distinct (delete k m)
  unfolding delete
  delete-Distinct k [] d = d
  delete-Distinct k ((i, w) ∷ m) d =
      ground (arith, text_eq_iff i k, text_eq_iff k i, lookup-delete k i m, delete-Distinct k m)

  -- A write adds an entry exactly when the key is new.
  pub length-insert :
      (k : Text) (v : V) (m : List (Text × V))
      → length (insert k v m) ≡ length m + (elim (lookup k m) [ none ↦ 1 | some _ ↦ 0 ])
  unfolding insert lookup
  length-insert k v [] = omega arith
  length-insert k v ((i, w) ∷ m) = ground (arith, length-insert k v m)

  pub length-delete :
      (k : Text) (m : List (Text × V))
      → Distinct m
      → length (delete k m) + (elim (lookup k m) [ none ↦ 0 | some _ ↦ 1 ]) ≡ length m
  unfolding delete lookup
  length-delete k [] d = omega arith
  length-delete k ((i, w) ∷ m) d = elim (Bool-cases (text_eq i k)) [
    | inl e ↦
        let same : i ≡ k = (text_eq_iff i k).0 e in
        let gone : lookup k m ≡ none = rw same at d.0 in ground (arith, delete_absent k m gone)
    | inr e ↦ ground (arith, length-delete k m d.1)
  ]

  pub length-insert_there :
      (k : Text) (v w : V) (m : List (Text × V))
      → lookup k m ≡ some w
      → length (insert k v m) ≡ length m
  length-insert_there k v w m h = ground (arith, length-insert k v m)

  pub length-delete_there :
      (k : Text) (w : V) (m : List (Text × V))
      → Distinct m
      → lookup k m ≡ some w
      → length (delete k m) + 1 ≡ length m
  length-delete_there k w m d h = ground (arith, length-delete k m d)

  -- What a lookup finds among the entries that pass the test.
  pub lookup-keep :
      (p : Text → V → Bool) (j : Text) (m : List (Text × V))
      → Distinct m
      → lookup j (keep p m)
        ≡ (elim (lookup j m) [ none ↦ none | some v ↦ if p j v then some v else none ])
  unfolding lookup keep
  lookup-keep p j [] d = refl
  lookup-keep p j ((i, w) ∷ m) d = ground (arith, text_eq_iff i j, lookup-keep p j m)

  pub keep-Distinct : (p : Text → V → Bool) (m : List (Text × V)) → Distinct m → Distinct (keep p m)
  unfolding keep
  keep-Distinct p [] d = d
  keep-Distinct p ((i, w) ∷ m) d = ground (arith, lookup-keep p i m, keep-Distinct p m)

  delete_keys-cons :
      (p : Text → V → Bool) (i : Text) (w : V) (l m : List (Text × V))
      → lookup i l ≡ none
      → delete_keys (select p l) ((i, w) ∷ m) ≡ (i, w) ∷ delete_keys (select p l) m
  unfolding delete_keys select lookup delete
  delete_keys-cons p i w [] m h = refl
  delete_keys-cons p i w ((k, v) ∷ l) m h = elim (Bool-cases (p k v)) [
    | inl e ↦
        rw e
          (ground (arith, text_eq_iff i k, text_eq_iff k i, delete_keys-cons p i w l (delete k m)))
    | inr e ↦ rw e (ground (arith, delete_keys-cons p i w l m))
  ]

  -- To collect the keys that satisfy a test and then delete each is to keep the other entries.
  pub delete_keys-select :
      (p : Text → V → Bool) (m : List (Text × V))
      → Distinct m
      → delete_keys (select p m) m ≡ keep (λ k v. not (p k v)) m
  unfolding delete_keys select keep delete
  delete_keys-select p [] d = refl
  delete_keys-select p ((k, v) ∷ m) d = elim (Bool-cases (p k v)) [
    | inl e ↦ rw e (ground (arith, text_eq_iff k k, delete_absent k m, delete_keys-select p m))
    | inr e ↦ rw e (delete_keys-cons p k v m m d.0 ∙ ap (◌∷◌ (k, v)) (delete_keys-select p m d.1))
  ]

  -- Every entry is selected or kept.
  pub length-select :
      (p : Text → V → Bool) (m : List (Text × V))
      → length (select p m) + length (keep (λ k v. not (p k v)) m) ≡ length m
  unfolding select keep
  length-select p [] = omega arith
  length-select p ((k, v) ∷ m) = ground (arith, length-select p m)
