-- ===== src/Cache/Invalidate.antt =====
-- internal/cache/memory_cache.go: the operations built on `Set`, `Get` and `DeletePattern`.
use tmidb_core.Base.{
  ℕ, ◌+◌, Bool, true, false, List, [], ◌∷◌, ◌++◌, Option, none, some, Text, bytes, ℤ,
}
use tmidb_core.Cache.Store.{MemoryCache, set, get, delete_pattern}

-- A stored `interface{}`: a string, or anything else.
pub data Value {ℓ} (X : Type ℓ) : Type ℓ where
  str : Text → Value X
  other : X → Value X

abbrev as_string {ℓ} : {X : Type ℓ} → Option (Value X) → Option Text
as_string none = none
as_string (some (str s)) = some s
as_string (some (other x)) = none

module _ {ℓ} {X : Type ℓ} where
  -- `none` is the empty string with `false`.
  unfoldable pub get_string :
      Text → ℕ → ℕ → MemoryCache (Value X) → MemoryCache (Value X) × Option Text
  get_string key now later c = let (c', value) = get key now later c in (c', as_string value)

-- The JSON of `J`: what `json.Marshal` and `json.Unmarshal` do with the values of one type.
pub record Json (J : Type 0) : Type 0 where
  pub marshal : J → Option Text
  pub unmarshal : Text → Option J

module _ {J : Type 0} {X : Type 0} (json : Json J) where
  -- `false` where marshalling fails.
  unfoldable pub set_json : Text → J → ℤ → ℕ → MemoryCache (Value X) → MemoryCache (Value X) × Bool
  set_json key value ttl now c = elim (json.marshal value) [
    | none ↦ (c, false)
    | some text ↦ (set key (str text) ttl now c, true)
  ]

  -- `none` is `false`; the destination is then not used.
  unfoldable pub get_json : Text → ℕ → ℕ → MemoryCache (Value X) → MemoryCache (Value X) × Option J
  get_json key now later c =
      let (c', value) = get key now later c in
      (c', elim (as_string value) [ none ↦ none | some text ↦ json.unmarshal text ])

abbrev pub category_patterns : Text → List Text
category_patterns category =
    (bytes "category:" ++ (category ++ bytes ":*"))
    ∷ (bytes "schema:" ++ category)
    ∷ (bytes "targets:" ++ (category ++ bytes ":*"))
    ∷ (bytes "timeseries:" ++ (category ++ bytes ":*"))
    ∷ []

abbrev pub target_patterns : Text → List Text
target_patterns target_id =
    (bytes "target:" ++ (target_id ++ bytes ":*"))
    ∷ (bytes "targets:*:" ++ target_id)
    ∷ (bytes "timeseries:*:" ++ (target_id ++ bytes ":*"))
    ∷ []

module _ {ℓ} {V : Type ℓ} where
  -- The loop over the patterns, with the total.
  unfoldable pub delete_patterns : List Text → MemoryCache V → ℕ → MemoryCache V × ℕ
  delete_patterns [] c total = (c, total)
  delete_patterns (pattern ∷ patterns) c total =
      let (c', n) = delete_pattern pattern c in delete_patterns patterns c' (total + n)

  unfoldable pub invalidate_category : Text → MemoryCache V → MemoryCache V × ℕ
  unfolding delete_patterns
  invalidate_category category c = delete_patterns (category_patterns category) c 0

  unfoldable pub invalidate_target : Text → MemoryCache V → MemoryCache V × ℕ
  unfolding delete_patterns
  invalidate_target target_id c = delete_patterns (target_patterns target_id) c 0
