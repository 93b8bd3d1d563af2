-- ===== src/Cache/Invariant.antt =====
-- internal/cache/memory_cache.go: what holds of the cache between two operations.
use tmidb_core.Base.{
  ℕ, ltb, ◌&&◌, ◌^◌, ◌+◌, ◌≤◌, max, ◌≡◌, ◌≢◌, refl, ap, ◌∙◌, Bool, false, not, List, [], ◌∷◌, none,
  some, if◌then◌else◌, length, Text, is_empty, arith, Bool-cases, Option-cases, ◌⊎◌, inl, inr,
  text_eq, text_eq_iff, ℤ, pos, pos_part, leb_int,
}
use tmidb_core.Base.Dict
use tmidb_core.Base.Dict.{Distinct, lookup}
use tmidb_core.Cache.Pattern.{match_pattern}
use tmidb_core.Cache.Store.{
  Item, MemoryCache, is_expired, expiry, new_memory_cache, evict_oldest, set, delete, get, get_hit,
  get_expired, count_miss, calculate_hit_rate, oldest, add64, delete_pattern, clear,
  perform_cleanup,
}
use tmidb_core.Cache.Eviction.{evict_oldest_lem}

-- No key twice, none empty; the size that the statistics show is the number of entries; and the
-- number of entries is within the limit (or 1, for a limit below 1).
pub record IsValid {ℓ} {V : Type ℓ} (c : MemoryCache V) : Type ℓ where
  pub distinct : Distinct c.items
  pub named : lookup [] c.items ≡ none
  pub counted : c.stats.size ≡ length c.items
  pub bounded : length c.items ≤ max 1 (pos_part c.max_size)

text_eq_named : (k : Text) → is_empty k ≡ false → text_eq k [] ≡ false
unfolding text_eq
text_eq_named [] h = absurd (cc)
text_eq_named (c ∷ k) h = refl

module _ {ℓ} {V : Type ℓ} where
  -- A new cache satisfies the invariant.
  pub new-IsValid :
      (max_size default_ttl : ℤ) → IsValid (new_memory_cache {V = V} max_size default_ttl)
  unfolding new_memory_cache lookup
  new-IsValid max_size default_ttl = record {
    distinct = tt;
    named = refl;
    counted = refl;
    bounded = omega arith;
  }

  lookup-eq-none-insert :
      (j k : Text) (v : Item V) (m : List (Text × Item V))
      → text_eq k j ≡ false
      → lookup j m ≡ none
      → lookup j (Dict.insert k v m) ≡ none
  lookup-eq-none-insert j k v m e h = ground (arith, Dict.lookup-insert k j v m)

  lookup-eq-none-delete :
      (j k : Text) (m : List (Text × Item V))
      → lookup j m ≡ none
      → lookup j (Dict.delete k m) ≡ none
  lookup-eq-none-delete j k m h = ground (arith, Dict.lookup-delete k j m)

  -- Making room keeps the keys distinct and named, and leaves one entry less than the limit, or none.
  record HasRoom (c r : MemoryCache V) : Type ℓ where
    pub distinct : Distinct r.items
    pub named : lookup [] r.items ≡ none
    pub room : length r.items + 1 ≤ max 1 (pos_part c.max_size)
    pub same_max : r.max_size ≡ c.max_size

  pub List-cases : (m : List (Text × Item V)) → (m ≡ []) ⊎ (m ≢ [])
  List-cases [] = inl refl
  List-cases (e ∷ m) = inr (λ h. cc)

  pub evict_oldest_nil : (c : MemoryCache V) → c.items ≡ [] → evict_oldest c ≡ c
  unfolding evict_oldest oldest
  evict_oldest_nil c e =
      let none_found : oldest c.items [] 0 ≡ [] = ap (λ m. oldest m [] 0) e in rw none_found

  evict_oldest-max_size : (c : MemoryCache V) → (evict_oldest c).max_size ≡ c.max_size
  unfolding evict_oldest
  evict_oldest-max_size c = ground arith

  evict_oldest-HasRoom : (c : MemoryCache V) → IsValid c → HasRoom c (evict_oldest c)
  evict_oldest-HasRoom c v = elim (List-cases c.items) [
    | inl e ↦ rw (evict_oldest_nil c e) (record {
      distinct = v.distinct;
      named = v.named;
      room = omega (arith, ap length e);
      same_max = refl;
    })
    | inr e ↦
        let (key, item, found, since, gone) = evict_oldest_lem c e v.distinct v.named in
        record {
          distinct = rw gone (Dict.delete-Distinct key c.items v.distinct);
          named = rw gone (lookup-eq-none-delete [] key c.items v.named);
          room = rw gone (ground (arith, Dict.length-delete key c.items v.distinct, v.bounded));
          same_max = evict_oldest-max_size c;
        }
  ]

  make_room-HasRoom :
      (c : MemoryCache V)
      → IsValid c
      → HasRoom c (if leb_int c.max_size (pos (length c.items)) then evict_oldest c else c)
  make_room-HasRoom c v = elim (Bool-cases (leb_int c.max_size (pos (length c.items)))) [
    | inl e ↦ rw e (evict_oldest-HasRoom c v)
    | inr e ↦
        rw e
          (record { distinct = v.distinct; named = v.named; room = ground arith; same_max = refl })
  ]

  -- `Set` under a key that is not empty keeps the invariant: the cache never outgrows its limit.
  pub set-IsValid :
      (key : Text) (value : V) (ttl : ℤ) (now : ℕ) (c : MemoryCache V)
      → is_empty key ≡ false
      → IsValid c
      → IsValid (set key value ttl now c)
  unfolding set
  set-IsValid key value ttl now c k v =
      let r = if leb_int c.max_size (pos (length c.items)) then evict_oldest c else c in
      let h : HasRoom c r = make_room-HasRoom c v in
      let item : Item V = record {
        value = value;
        expires_at = expiry now ttl c.default_ttl;
        created_at = now;
        access_at = now;
        hit_count = 0;
      } in
      record {
        distinct = Dict.insert-Distinct key item r.items h.distinct;
        named = lookup-eq-none-insert [] key item r.items (text_eq_named key k) h.named;
        counted = refl;
        bounded = rw h.same_max (ground (arith, Dict.length-insert key item r.items, h.room));
      }

  pub delete-IsValid : (key : Text) (c : MemoryCache V) → IsValid c → IsValid (delete key c)
  unfolding delete
  delete-IsValid key c v = elim (Option-cases (lookup key c.items)) [
    | inl e ↦ rw (e, delete) v
    | inr (item, e) ↦
        rw (e, delete)
          (record {
            distinct = Dict.delete-Distinct key c.items v.distinct;
            named = lookup-eq-none-delete [] key c.items v.named;
            counted = refl;
            bounded = ground (arith, Dict.length-delete key c.items v.distinct, v.bounded);
          })
  ]

  -- Dropping the entries that a test selects keeps the invariant.
  pub keep-IsValid :
      (p : Text → Item V → Bool) (c d : MemoryCache V)
      → IsValid c
      → d.items ≡ Dict.delete_keys (Dict.select p c.items) c.items
      → d.stats.size ≡ length d.items
      → d.max_size ≡ c.max_size
      → IsValid d
  keep-IsValid p c d v e n same =
      let kept = Dict.keep (λ k item. not (p k item)) c.items in
      let e' : d.items ≡ kept = e ∙ Dict.delete_keys-select p c.items v.distinct in
      record {
        distinct = rw e' (Dict.keep-Distinct (λ k item. not (p k item)) c.items v.distinct);
        named = rw e' (
            ground
              (arith, Dict.lookup-keep (λ k item. not (p k item)) [] c.items v.distinct, v.named));
        counted = n;
        bounded = rw (e', same) (omega (arith, Dict.length-select p c.items, v.bounded));
      }

  pub count_miss-IsValid : (c : MemoryCache V) → IsValid c → IsValid (count_miss c)
  unfolding count_miss
  count_miss-IsValid c v = record {
    distinct = v.distinct;
    named = v.named;
    counted = v.counted;
    bounded = v.bounded;
  }

  calculate_hit_rate-IsValid : (c : MemoryCache V) → IsValid c → IsValid (calculate_hit_rate c)
  unfolding calculate_hit_rate
  calculate_hit_rate-IsValid c v =
      let total = add64 c.stats.hits c.stats.misses in
      elim (Bool-cases (ltb 0 total && ltb total (2 ^ 63))) [
        | inl e ↦ rw e (record {
          distinct = v.distinct;
          named = v.named;
          counted = v.counted;
          bounded = v.bounded;
        })
        | inr e ↦ rw e v
      ]

  get_hit-IsValid :
      (key : Text) (item : Item V) (later : ℕ) (c : MemoryCache V)
      → lookup key c.items ≡ some item
      → IsValid c
      → IsValid (get_hit key item later c)
  unfolding get_hit
  get_hit-IsValid key item later c found v =
      let used : Item V = record item { access_at = later; hit_count = add64 item.hit_count 1 } in
      calculate_hit_rate-IsValid _ (record {
        distinct = Dict.insert-Distinct key used c.items v.distinct;
        named =
            ground
              (arith, text_eq_iff key [], Dict.lookup-insert key [] used c.items, v.named, found);
        counted = ground (arith, Dict.length-insert key used c.items, v.counted, found);
        bounded = ground (arith, Dict.length-insert key used c.items, v.bounded, found);
      })

  pub get-IsValid :
      (key : Text) (now later : ℕ) (c : MemoryCache V) → IsValid c → IsValid (get key now later c).0
  unfolding get get_expired
  get-IsValid key now later c v = elim (Option-cases (lookup key c.items)) [
    | inl e ↦ rw (e, get) (count_miss-IsValid c v)
    | inr (item, e) ↦ elim (Bool-cases (is_expired item now)) [
      | inl x ↦ rw (e, get) (rw x (count_miss-IsValid (delete key c) (delete-IsValid key c v)))
      | inr x ↦ rw (e, get) (rw x (get_hit-IsValid key item later c e v))
    ]
  ]

  pub delete_pattern-IsValid :
      (pattern : Text) (c : MemoryCache V) → IsValid c → IsValid (delete_pattern pattern c).0
  unfolding delete_pattern
  delete_pattern-IsValid pattern c v =
      keep-IsValid (λ k item. match_pattern k pattern) c (delete_pattern pattern c).0 v refl refl
        refl

  pub clear-IsValid : (c : MemoryCache V) → IsValid c → IsValid (clear c)
  unfolding clear lookup
  clear-IsValid c v = record { distinct = tt; named = refl; counted = refl; bounded = omega arith }

  pub perform_cleanup-IsValid :
      (now : ℕ) (clock : Text → ℕ) (c : MemoryCache V)
      → IsValid c
      → IsValid (perform_cleanup now clock c)
  unfolding perform_cleanup
  perform_cleanup-IsValid now clock c v =
      keep-IsValid (λ k item. is_expired item (clock k)) c (perform_cleanup now clock c) v refl refl
        refl
