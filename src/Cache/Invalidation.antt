-- ===== src/Cache/Invalidation.antt =====
-- internal/cache/memory_cache.go: what `InvalidateCategory` removes.
use mathlib.Core.List.{append_assoc}
use tmidb_core.Base.{
  ℕ, ◌+◌, ◌≡◌, refl, sym, ap, ◌∙◌, Bool, false, ◌||◌, List, [], ◌∷◌, ◌++◌, none, length, Text,
  bytes, arith, if◌then◌else◌, text_eq,
}
use tmidb_core.Base.Dict.{lookup}
use tmidb_core.Cache.Pattern.{has_prefix, index_of, match_pattern, star}
use tmidb_core.Cache.Pattern.Weave.{StarFree}
use tmidb_core.Cache.Pattern.Overlap.{
  match_pattern-has_prefix, match_pattern_exact, append-StarFree,
}
use tmidb_core.Cache.Store.{MemoryCache, delete_pattern}
use tmidb_core.Cache.Invalidate.{category_patterns, delete_patterns, invalidate_category}
use tmidb_core.Cache.Invariant.{IsValid, delete_pattern-IsValid}
use tmidb_core.Cache.Reads.{delete_pattern_lem}

abbrev any_match : Text → List Text → Bool
any_match j [] = false
any_match j (p ∷ patterns) = match_pattern j p || any_match j patterns

starred : (a b : Text) → a ++ (b ++ bytes ":*") ≡ (a ++ (b ++ bytes ":")) ++ star ∷ []
starred a b =
    ap (λ t. a ++ t) (sym (append_assoc b (bytes ":") (star ∷ [])))
    ∙ sym (append_assoc a (b ++ bytes ":") (star ∷ []))

words :
    (StarFree (bytes "category:"))
    × (StarFree (bytes "schema:"))
    × (StarFree (bytes "targets:"))
    × (StarFree (bytes "timeseries:"))
    × (StarFree (bytes ":"))
unfolding index_of has_prefix text_eq
words = (refl, refl, refl, refl, refl)

below :
    (j a b : Text)
    → StarFree a
    → StarFree b
    → match_pattern j (a ++ (b ++ bytes ":*")) ≡ has_prefix j (a ++ (b ++ bytes ":"))
below j a b fa fb =
    ap (match_pattern j) (starred a b)
    ∙ match_pattern-has_prefix j (a ++ (b ++ bytes ":"))
        (append-StarFree a (b ++ bytes ":") fa (append-StarFree b (bytes ":") fb words.4))

-- The keys that belong to a category.
abbrev pub of_category : Text → Text → Bool
of_category category j =
    has_prefix j (bytes "category:" ++ (category ++ bytes ":"))
    || (text_eq j (bytes "schema:" ++ category)
        || (has_prefix j (bytes "targets:" ++ (category ++ bytes ":"))
            || (has_prefix j (bytes "timeseries:" ++ (category ++ bytes ":")) || false)))

any_match_category :
    (category j : Text)
    → StarFree category
    → any_match j (category_patterns category) ≡ of_category category j
any_match_category category j free = rw (
  below j (bytes "category:") category words.0 free,
  below j (bytes "targets:") category words.2 free,
  below j (bytes "timeseries:") category words.3 free,
  match_pattern_exact j (bytes "schema:" ++ category)
      (append-StarFree (bytes "schema:") category words.1 free),
)

module _ {ℓ} {V : Type ℓ} where
  delete_patterns_lem :
      (patterns : List Text) (c : MemoryCache V) (total : ℕ)
      → IsValid c
      → ((j : Text)
          → lookup j (delete_patterns patterns c total).0.items
            ≡ (if any_match j patterns then none else lookup j c.items))
        × ((delete_patterns patterns c total).1 + length (delete_patterns patterns c total).0.items
            ≡ total + length c.items)
  unfolding delete_patterns
  delete_patterns_lem [] c total v = (λ j. refl, refl)
  delete_patterns_lem (p ∷ patterns) c total v =
      let d = (delete_pattern p c).0 in
      let n = (delete_pattern p c).1 in
      let (gone, count) = delete_pattern_lem p c v in
      let (rest, counts) =
        delete_patterns_lem patterns d (total + n) (delete_pattern-IsValid p c v) in
      (λ j. rest j ∙ ground (arith, gone j), omega (arith, count, counts))

  -- In a valid cache, for a category whose name holds no star, `InvalidateCategory` removes exactly the entries whose
  -- key begins with `category:`, `targets:` or `timeseries:`, the name and a colon, or is `schema:`
  -- and the name; every other entry stays as it was, and the count is the number of entries gone.
  pub invalidate_category_lem :
      (category : Text) (c : MemoryCache V)
      → StarFree category
      → IsValid c
      → ((j : Text)
          → lookup j (invalidate_category category c).0.items
            ≡ (if of_category category j then none else lookup j c.items))
        × ((invalidate_category category c).1 + length (invalidate_category category c).0.items
            ≡ 0 + length c.items)
  unfolding invalidate_category
  invalidate_category_lem category c free v =
      let (gone, count) = delete_patterns_lem (category_patterns category) c 0 v in
      (
        λ j.
            gone j
            ∙ ap (λ b. if b then none else lookup j c.items) (any_match_category category j free),
        count,
      )
