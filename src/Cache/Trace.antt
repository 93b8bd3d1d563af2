-- ===== src/Cache/Trace.antt =====
-- internal/cache/memory_cache.go: the cache under any sequence of calls.
use tmidb_core.Base.{ℕ, ◌≡◌, sym, ◌∙◌, false, List, [], ◌∷◌, length, Text, is_empty, arith, ℤ}
use tmidb_core.Base.Dict.{Distinct, lookup}
use tmidb_core.Cache.Store.{
  Item, MemoryCache, new_memory_cache, set, delete, get, delete_pattern, clear, perform_cleanup,
}
use tmidb_core.Cache.Invalidate.{
  category_patterns, target_patterns, invalidate_category, invalidate_target, delete_patterns,
}
use tmidb_core.Cache.Invariant.{
  IsValid, new-IsValid, set-IsValid, delete-IsValid, get-IsValid, delete_pattern-IsValid,
  clear-IsValid, perform_cleanup-IsValid,
}

module _ {ℓ} {V : Type ℓ} where
  -- The same map, met by a `range` loop in another order.
  pub record Reordering (m n : List (Text × Item V)) : Type ℓ where
    pub same : (k : Text) → lookup k n ≡ lookup k m
    pub distinct : Distinct n
    pub same_length : length n ≡ length m

  -- A step of the cache: a call of one of its methods (a set under a key that is not empty), a tick
  -- of the cleanup, or nothing but another order of iteration.
  pub data Step (c : MemoryCache V) : MemoryCache V → Type ℓ where
    setting :
        (key : Text) (value : V) (ttl : ℤ) (now : ℕ)
        → is_empty key ≡ false
        → Step c (set key value ttl now c)
    getting : (key : Text) (now later : ℕ) → Step c (get key now later c).0
    deleting : (key : Text) → Step c (delete key c)
    deleting_pattern : (pattern : Text) → Step c (delete_pattern pattern c).0
    invalidating_category : (category : Text) → Step c (invalidate_category category c).0
    invalidating_target : (target_id : Text) → Step c (invalidate_target target_id c).0
    clearing : Step c (clear c)
    cleaning : (now : ℕ) (clock : Text → ℕ) → Step c (perform_cleanup now clock c)
    reordering : (m : List (Text × Item V)) → Reordering c.items m → Step c (record c { items = m })

  pub data Reach (c : MemoryCache V) : MemoryCache V → Type ℓ where
    here : Reach c c
    next : {d e : MemoryCache V} → Reach c d → Step d e → Reach c e

  delete_patterns-IsValid :
      (patterns : List Text) (c : MemoryCache V) (total : ℕ)
      → IsValid c
      → IsValid (delete_patterns patterns c total).0
  unfolding delete_patterns
  delete_patterns-IsValid [] c total v = v
  delete_patterns-IsValid (p ∷ patterns) c total v =
      delete_patterns-IsValid patterns (delete_pattern p c).0 _ (delete_pattern-IsValid p c v)

  Step-IsValid : {c d : MemoryCache V} → Step c d → IsValid c → IsValid d
  unfolding invalidate_category invalidate_target
  Step-IsValid {c = c} (setting key value ttl now n) v = set-IsValid key value ttl now c n v
  Step-IsValid {c = c} (getting key now later) v = get-IsValid key now later c v
  Step-IsValid {c = c} (deleting key) v = delete-IsValid key c v
  Step-IsValid {c = c} (deleting_pattern pattern) v = delete_pattern-IsValid pattern c v
  Step-IsValid {c = c} (invalidating_category category) v =
      delete_patterns-IsValid (category_patterns category) c 0 v
  Step-IsValid {c = c} (invalidating_target target_id) v =
      delete_patterns-IsValid (target_patterns target_id) c 0 v
  Step-IsValid {c = c} clearing v = clear-IsValid c v
  Step-IsValid {c = c} (cleaning now clock) v = perform_cleanup-IsValid now clock c v
  Step-IsValid (reordering m r) v = record {
    distinct = r.distinct;
    named = r.same [] ∙ v.named;
    counted = v.counted ∙ sym r.same_length;
    bounded = omega (arith, r.same_length, v.bounded);
  }

  -- Whatever is called, and in whatever order the map is iterated: a cache that started empty and in
  -- which no empty key is set never holds a key twice, reports the number of its entries, and never
  -- holds more than its limit (or 1, for a limit below 1).
  pub Reach-IsValid :
      (max_size default_ttl : ℤ) {c : MemoryCache V}
      → Reach (new_memory_cache max_size default_ttl) c
      → IsValid c
  Reach-IsValid max_size default_ttl here = new-IsValid max_size default_ttl
  Reach-IsValid max_size default_ttl (next r s) =
      Step-IsValid s (Reach-IsValid max_size default_ttl r)
