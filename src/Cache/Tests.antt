-- ===== src/Cache/Tests.antt =====
-- internal/cache/memory_cache.go: caches and calls on which the theorems are run.
use tmidb_core.Base.{
  ◌↔◌, ℕ, ◌+◌, ◌≤◌, ◌≡◌, ◌⊎◌, refl, ap, true, false, List, [], ◌∷◌, none, some, Text, bytes, ℤ, pos,
  length, if◌then◌else◌, text_eq, arith, All,
}
use tmidb_core.Base.Dict
use tmidb_core.Base.Dict.{lookup}
use tmidb_core.Cache.Pattern.{index_of, has_prefix, split, match_pattern, star}
use tmidb_core.Cache.Pattern.Split.{join, IsFree, join-split}
use tmidb_core.Cache.Pattern.Ordered.{Described, match_pattern_iff}
use tmidb_core.Cache.Store.{
  Item, MemoryCache, zero_rate, new_memory_cache, set, get, evict_oldest, delete_pattern,
  perform_cleanup,
}
use tmidb_core.Cache.Eviction.{UsedSince, evict_oldest_lem}
use tmidb_core.Cache.Invariant.{IsValid}
use tmidb_core.Cache.Reads.{live, get-live, perform_cleanup-live, delete_pattern_lem}
use tmidb_core.Cache.Capacity.{IsVictim, set-lookup_ne}
use tmidb_core.Cache.Trace.{here, next, setting, Reach-IsValid}

abbrev item_at : ℕ → ℕ → Item ℕ
item_at value used = record {
  value = value;
  expires_at = 0;
  created_at = used;
  access_at = used;
  hit_count = 0;
}

abbrev cache_of : ℤ → List (Text × Item ℕ) → MemoryCache ℕ
cache_of max_size items = record {
  items = items;
  max_size = max_size;
  default_ttl = pos 0;
  stats = record {
    hits = 0;
    misses = 0;
    sets = 0;
    deletes = 0;
    evictions = 0;
    size = length items;
    max_size = max_size;
    hit_rate = zero_rate;
    last_cleanup = 0;
  };
  stopped = false;
}

-- A full cache with two entries, the second of them the older.
abbrev two : MemoryCache ℕ
two = cache_of (pos 2) ((bytes "a", item_at 1 5) ∷ (bytes "b", item_at 2 3) ∷ [])

two-IsValid : IsValid two
unfolding lookup text_eq
two-IsValid = record {
  distinct = (refl, (refl, tt));
  named = refl;
  counted = refl;
  bounded = omega arith;
}

abbrev listed : MemoryCache ℕ
listed = cache_of (pos 9) ((bytes "schema:s", item_at 1 5) ∷ (bytes "target:s:1", item_at 2 3) ∷ [])

listed-IsValid : IsValid listed
unfolding lookup text_eq
listed-IsValid = record {
  distinct = (refl, (refl, tt));
  named = refl;
  counted = refl;
  bounded = omega arith;
}

Reach-IsValid_example :
    IsValid {V = ℕ}
      (set (bytes "b") 2 (pos 0) 6 (set (bytes "a") 1 (pos 0) 5 (new_memory_cache (pos 1) (pos 0))))
Reach-IsValid_example =
    Reach-IsValid (pos 1) (pos 0) (
      next (next here (setting (bytes "a") 1 (pos 0) 5 refl))
        (setting (bytes "b") 2 (pos 0) 6 refl))

evict_oldest_lem_example :
    (key : Text) × (item : Item ℕ) × (lookup key two.items ≡ some item)
    × UsedSince item.access_at two.items
    × ((evict_oldest two).items ≡ Dict.delete key two.items)
evict_oldest_lem_example = evict_oldest_lem two (λ e. cc) two-IsValid.distinct two-IsValid.named

get-live_example :
    ((get (bytes "a") 7 8 two).1 ≡ live 7 (bytes "a") two)
    × ((t : ℕ) (j : Text) → 7 ≤ t → live t j (get (bytes "a") 7 8 two).0 ≡ live t j two)
get-live_example = get-live (bytes "a") 7 8 two

perform_cleanup-live_example :
    live 9 (bytes "a") (perform_cleanup 7 (λ k. 8) two) ≡ live 9 (bytes "a") two
perform_cleanup-live_example =
    perform_cleanup-live 7 9 (λ k. 8) (bytes "a") two two-IsValid (omega arith)

delete_pattern_lem_example :
    ((j : Text)
      → lookup j (delete_pattern (bytes "a*") two).0.items
        ≡ (if match_pattern j (bytes "a*") then none else lookup j two.items))
    × ((delete_pattern (bytes "a*") two).1 + length (delete_pattern (bytes "a*") two).0.items ≡ 2)
delete_pattern_lem_example = delete_pattern_lem (bytes "a*") two two-IsValid

set-lookup_ne_example :
    (lookup (bytes "b") (set (bytes "cd") 4 (pos 3) 6 two).items ≡ lookup (bytes "b") two.items)
    ⊎ ((lookup (bytes "b") (set (bytes "cd") 4 (pos 3) 6 two).items ≡ none)
        × IsVictim (bytes "b") two)
set-lookup_ne_example =
    set-lookup_ne (bytes "cd") 4 (pos 3) 6 (bytes "b") two two-IsValid
      (λ e. absurd (omega (arith, ap length e)))

s-IsFree : IsFree (star ∷ []) (bytes "s")
unfolding index_of has_prefix text_eq
s-IsFree = refl

join-split_example :
    (join (bytes ":") (split (bytes "a:b") (bytes ":")) ≡ bytes "a:b")
    × All (IsFree (bytes ":")) (split (bytes "a:b") (bytes ":"))
join-split_example = join-split (bytes "a:b") (bytes ":") (λ e. cc)

match_pattern_iff_example :
    (match_pattern (bytes "axbyc") (bytes "a*b*c") ≡ true)
    ↔ Described (bytes "a") (bytes "b") (bytes "c" ∷ []) (bytes "axbyc")
unfolding index_of has_prefix text_eq
match_pattern_iff_example =
    match_pattern_iff (bytes "axbyc") (bytes "a") (bytes "b") (bytes "c" ∷ [])
      (refl, (refl, (refl, tt)))
