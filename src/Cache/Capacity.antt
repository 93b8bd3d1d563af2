-- ===== src/Cache/Capacity.antt =====
-- internal/cache/memory_cache.go: what a `Set` costs the other keys, and the window of `Get`.
use tmidb_core.Base.{
  ℕ, ◌+◌, ◌≤◌, ◌<◌, ◌≡◌, ◌≢◌, refl, sym, ap, subst, ◌∙◌, true, false, List, [], ◌∷◌, none, some,
  length, Text, arith, Bool-cases, ◌⊎◌, inl, inr, text_eq, text_eq_iff, text_eq_ne, ℤ, pos, leb_int,
}
use tmidb_core.Base.Dict
use tmidb_core.Base.Dict.{Distinct, lookup}
use tmidb_core.Cache.Store.{Item, MemoryCache, expiry, evict_oldest, set, get_expired, count_miss}
use tmidb_core.Cache.Eviction.{evict_oldest_lem, UsedSince}
use tmidb_core.Cache.Invariant.{IsValid, List-cases, evict_oldest_nil}
use tmidb_core.Cache.Reads.{live, set-items, lookup-delete_items}

module _ {ℓ} {V : Type ℓ} where
  -- `Set` takes an entry away: the cache was full, and no entry was used before it.
  abbrev pub IsVictim : Text → MemoryCache V → Type ℓ
  IsVictim j c =
      (item : Item V) × (lookup j c.items ≡ some item)
      × UsedSince item.access_at c.items
      × (leb_int c.max_size (pos (length c.items)) ≡ true)

  evict_other :
      (j : Text) (c : MemoryCache V)
      → IsValid c
      → leb_int c.max_size (pos (length c.items)) ≡ true
      → (lookup j (evict_oldest c).items ≡ lookup j c.items)
        ⊎ ((lookup j (evict_oldest c).items ≡ none) × IsVictim j c)
  evict_other j c v full = elim (List-cases c.items) [
    | inl e ↦ inl (ap (λ r. lookup j r.items) (evict_oldest_nil c e))
    | inr e ↦
        let (key, item, found, since, gone) = evict_oldest_lem c e v.distinct v.named in
        let after = ap (lookup j) gone ∙ Dict.lookup-delete key j c.items in
        elim (Bool-cases (text_eq key j)) [
          | inl same ↦ inr (
            after ∙ rw same,
            (
              item,
              subst (λ k. lookup k c.items ≡ some item) ((text_eq_iff key j).0 same) found,
              since,
              full,
            ),
          )
          | inr other ↦ inl (after ∙ rw other)
        ]
  ]

  -- In a valid cache a `Set` changes the entry of no other key, except that a full cache may lose
  -- one that no entry was used before.
  pub set-lookup_ne :
      (key : Text) (value : V) (ttl : ℤ) (now : ℕ) (j : Text) (c : MemoryCache V)
      → IsValid c
      → key ≢ j
      → (lookup j (set key value ttl now c).items ≡ lookup j c.items)
        ⊎ ((lookup j (set key value ttl now c).items ≡ none) × IsVictim j c)
  set-lookup_ne key value ttl now j c v ne =
      let differ : text_eq key j ≡ false = text_eq_ne key j ne in
      elim (Bool-cases (leb_int c.max_size (pos (length c.items)))) [
        | inl full ↦
            let after : lookup j (set key value ttl now c).items ≡ lookup j (evict_oldest c).items =
              set-items key value ttl now j c ∙ rw (differ, full) in
            elim (evict_other j c v full) [
              | inl same ↦ inl (after ∙ same)
              | inr (gone, victim) ↦ inr (after ∙ gone, victim)
            ]
        | inr room ↦ inl (set-items key value ttl now j c ∙ rw (differ, room))
      ]

  since-lookup :
      (j : Text) (item : Item V) (t : ℕ) (m : List (Text × Item V))
      → UsedSince t m
      → lookup j m ≡ some item
      → t ≤ item.access_at
  unfolding lookup
  since-lookup j item t [] u h = absurd (cc)
  since-lookup j item t ((i, w) ∷ m) u h = ground (arith, since-lookup j item t m u.1)

  lookup_nonempty :
      (k : Text) (item : Item V) (m : List (Text × Item V)) → lookup k m ≡ some item → m ≢ []
  unfolding lookup
  lookup_nonempty k item [] h e = cc
  lookup_nonempty k item (x ∷ m) h e = cc

  spared_key :
      (k key : Text) (item mine : Item V) (m : List (Text × Item V))
      → lookup k m ≡ some item
      → lookup key m ≡ some mine
      → k ≡ key
      → item.access_at ≢ mine.access_at
      → ⊥
  spared_key k key item mine m found here e ne =
      let same : some item ≡ some mine = sym found ∙ (ap (λ t. lookup t m) e ∙ here) in
      ne (ground arith)

  -- A `Set` of a key that is there already still evicts, if the cache is valid and full: where some
  -- other entry was used before that key's, the cache is one entry smaller afterwards.
  pub set_existing_shrinks :
      (key : Text) (value : V) (ttl : ℤ) (now : ℕ) (c : MemoryCache V) (mine theirs : Item V)
      (j : Text)
      → IsValid c
      → leb_int c.max_size (pos (length c.items)) ≡ true
      → lookup key c.items ≡ some mine
      → lookup j c.items ≡ some theirs
      → theirs.access_at < mine.access_at
      → length (set key value ttl now c).items + 1 ≡ length c.items
  unfolding set
  set_existing_shrinks key value ttl now c mine theirs j v full here there older =
      let (k, item, found, since, gone) =
        evict_oldest_lem c (λ e. lookup_nonempty key mine c.items here e) v.distinct v.named in
      let least : item.access_at ≤ theirs.access_at =
        since-lookup j theirs item.access_at c.items since there in
      let spared : text_eq k key ≡ false =
        text_eq_ne k key (λ e. spared_key k key item mine c.items found here e (omega arith)) in
      let kept : lookup key (Dict.delete k c.items) ≡ some mine =
        Dict.lookup-delete k key c.items ∙ rw spared here in
      let new : Item V = record {
        value = value;
        expires_at = expiry now ttl c.default_ttl;
        created_at = now;
        access_at = now;
        hit_count = 0;
      } in
      rw (full, gone)
        (ap (λ n. n + 1) (Dict.length-insert_there key new mine (Dict.delete k c.items) kept)
          ∙ Dict.length-delete_there k item c.items v.distinct found)

  -- Between the expiry test of a `Get` and its deletion another call may set the key anew: the
  -- deletion then removes the new value, however long it was to live.
  pub get_expired_drops_set :
      (key : Text) (value : V) (ttl : ℤ) (now t : ℕ) (c : MemoryCache V)
      → live t key (get_expired key (set key value ttl now c)) ≡ none
  unfolding get_expired count_miss
  get_expired_drops_set key value ttl now t c =
      rw (lookup-delete_items key key (set key value ttl now c), (text_eq_iff key key).1 refl) refl
