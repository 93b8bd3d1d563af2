-- ===== src/Cache/Store.antt =====
-- internal/cache/memory_cache.go: the cache's state and its operations. Each operation holds the
-- mutex for the whole of a step given here. A time is the nanoseconds since Go's zero time, so the
-- zero time is 0. An int64 counter is its bit pattern, modulo 2 ^ 64.
use tmidb_core.Base.{
  ℕ, ◌+◌, ◌%◌, ◌^◌, Bool, true, false, not, ◌&&◌, ◌||◌, List, [], ◌∷◌, Option, none, some, ltb,
  ◌==◌, if◌then◌else◌, length, Text, is_empty, ℤ, pos, pos_part, leb_int, ltb_int,
}
use tmidb_core.Base.Dict
use tmidb_core.Cache.Pattern.{match_pattern}

abbrev pub add64 : ℕ → ℕ → ℕ
add64 n k = (n + k) % 2 ^ 64

pub record Item {ℓ} (V : Type ℓ) : Type ℓ where
  pub value : V
  pub expires_at : ℕ
  pub created_at : ℕ
  pub access_at : ℕ
  pub hit_count : ℕ

unfoldable pub is_expired {ℓ} : {V : Type ℓ} → Item V → ℕ → Bool
is_expired item now = not (item.expires_at == 0) && ltb item.expires_at now

-- `HitRate` as the operands of its floating-point quotient, `hits / total * 100`.
pub data Rate : Type 0 where
  zero_rate : Rate
  percent : ℕ → ℕ → Rate

pub record CacheStats : Type 0 where
  pub hits : ℕ
  pub misses : ℕ
  pub sets : ℕ
  pub deletes : ℕ
  pub evictions : ℕ
  pub size : ℕ
  pub max_size : ℤ
  pub hit_rate : Rate
  pub last_cleanup : ℕ

pub record MemoryCache {ℓ} (V : Type ℓ) : Type ℓ where
  pub items : List (Text × Item V)
  pub max_size : ℤ
  pub default_ttl : ℤ
  pub stats : CacheStats
  pub stopped : Bool  -- `stopCleanup` is closed

unfoldable pub new_memory_cache {ℓ} : {V : Type ℓ} → ℤ → ℤ → MemoryCache V
new_memory_cache max_size default_ttl = record {
  items = [];
  max_size = max_size;
  default_ttl = default_ttl;
  stats = record {
    hits = 0;
    misses = 0;
    sets = 0;
    deletes = 0;
    evictions = 0;
    size = 0;
    max_size = max_size;
    hit_rate = zero_rate;
    last_cleanup = 0;
  };
  stopped = false;
}

-- `expiresAt` of `Set`: the call's own time to live, else the cache's, else never.
unfoldable pub expiry : ℕ → ℤ → ℤ → ℕ
expiry now ttl default_ttl =
    if ltb_int (pos 0) ttl
    then now + pos_part ttl
    else if ltb_int (pos 0) default_ttl
    then now + pos_part default_ttl
    else 0

module _ {ℓ} {V : Type ℓ} where
  -- The loop of `evictOldest`: the key and the time of the oldest entry so far.
  unfoldable pub oldest : List (Text × Item V) → Text → ℕ → Text
  oldest [] key time = key
  oldest ((k, item) ∷ rest) key time =
      let older = is_empty key || ltb item.access_at time in
      oldest rest (if older then k else key) (if older then item.access_at else time)

  unfoldable pub evict_oldest : MemoryCache V → MemoryCache V
  evict_oldest c =
      let key = oldest c.items [] 0 in
      if is_empty key then c else record c {
        items = Dict.delete key c.items;
        stats = record (c.stats) { evictions = add64 c.stats.evictions 1 };
      }

  unfoldable pub set : Text → V → ℤ → ℕ → MemoryCache V → MemoryCache V
  set key value ttl now c =
      let room = if leb_int c.max_size (pos (length c.items)) then evict_oldest c else c in
      let items =
        Dict.insert key
          (record {
            value = value;
            expires_at = expiry now ttl c.default_ttl;
            created_at = now;
            access_at = now;
            hit_count = 0;
          })
          room.items in
      record room {
        items = items;
        stats = record (room.stats) { sets = add64 room.stats.sets 1; size = length items };
      }

  unfoldable pub delete : Text → MemoryCache V → MemoryCache V
  delete key c = elim (Dict.lookup key c.items) [
    | none ↦ c
    | some _ ↦ record c {
      items = Dict.delete key c.items;
      stats = record (c.stats) {
        deletes = add64 c.stats.deletes 1;
        size = length (Dict.delete key c.items);
      };
    }
  ]

  unfoldable pub calculate_hit_rate : MemoryCache V → MemoryCache V
  calculate_hit_rate c =
      let total = add64 c.stats.hits c.stats.misses in
      if ltb 0 total && ltb total (2 ^ 63)
      then record c { stats = record (c.stats) { hit_rate = percent c.stats.hits total } }
      else c

  unfoldable pub count_miss : MemoryCache V → MemoryCache V
  count_miss c = record c { stats = record (c.stats) { misses = add64 c.stats.misses 1 } }

  -- What `Get` does once it has found an expired item: it deletes whatever the key holds by then.
  unfoldable pub get_expired : Text → MemoryCache V → MemoryCache V
  get_expired key c = count_miss (delete key c)

  -- What `Get` does with an item that is not expired.
  unfoldable pub get_hit : Text → Item V → ℕ → MemoryCache V → MemoryCache V
  get_hit key item now c = calculate_hit_rate (record c {
    items =
        Dict.insert key (record item { access_at = now; hit_count = add64 item.hit_count 1 })
          c.items;
    stats = record (c.stats) { hits = add64 c.stats.hits 1 };
  })

  -- `now` is the time of the expiry test, `later` that of the access.
  unfoldable pub get : Text → ℕ → ℕ → MemoryCache V → MemoryCache V × Option V
  get key now later c = elim (Dict.lookup key c.items) [
    | none ↦ (count_miss c, none)
    | some item ↦
        if is_expired item now
        then (get_expired key c, none)
        else (get_hit key item later c, some item.value)
  ]

  unfoldable pub delete_pattern : Text → MemoryCache V → MemoryCache V × ℕ
  delete_pattern pattern c =
      let keys = Dict.select (λ k item. match_pattern k pattern) c.items in
      let items = Dict.delete_keys keys c.items in
      (
        record c {
          items = items;
          stats = record (c.stats) {
            deletes = add64 c.stats.deletes (length keys);
            size = length items;
          };
        },
        length keys,
      )

  unfoldable pub clear : MemoryCache V → MemoryCache V
  clear c = record c {
    items = [];
    stats = record (c.stats) { deletes = add64 c.stats.deletes (length c.items); size = 0 };
  }

  unfoldable pub exists : Text → ℕ → MemoryCache V → Bool
  exists key now c = elim (Dict.lookup key c.items) [
    | none ↦ false
    | some item ↦ not (is_expired item now)
  ]

  unfoldable pub keys : ℕ → MemoryCache V → List Text
  keys now c = Dict.select (λ k item. not (is_expired item now)) c.items

  unfoldable pub stats : MemoryCache V → CacheStats
  stats c = record (c.stats) { size = length c.items }

  -- `now` is read at the start, and `clock` at the test of each entry.
  unfoldable pub perform_cleanup : ℕ → (Text → ℕ) → MemoryCache V → MemoryCache V
  perform_cleanup now clock c =
      let expired = Dict.select (λ k item. is_expired item (clock k)) c.items in
      let items = Dict.delete_keys expired c.items in
      record c {
        items = items;
        stats = record (c.stats) {
          evictions = add64 c.stats.evictions (length expired);
          size = length items;
          last_cleanup = now;
        };
      }

  -- Closing a channel twice panics: `none`.
  unfoldable pub close : MemoryCache V → Option (MemoryCache V)
  close c = if c.stopped then none else some (clear (record c { stopped = true }))
