-- ===== src/Cache/Reads.antt =====
-- internal/cache/memory_cache.go: what `Get` answers before and after each operation.
use tmidb_core.Base.{
  ℕ, ◌+◌, ◌≤◌, ◌<◌, ◌≡◌, refl, ap, subst, ◌∙◌, Bool, true, not, Option, none, some, if◌then◌else◌,
  length, leb, Text, arith, Bool-cases, Option-cases, inl, inr, text_eq, text_eq_iff, ℤ, pos,
  negsuc, pos_part, leb_int,
}
use tmidb_core.Base.Dict
use tmidb_core.Base.Dict.{Distinct, lookup}
use tmidb_core.Cache.Pattern.{match_pattern}
use tmidb_core.Cache.Store.{
  Item, MemoryCache, is_expired, expiry, evict_oldest, set, delete, get, get_hit, get_expired,
  count_miss, calculate_hit_rate, delete_pattern, perform_cleanup, add64,
}
use tmidb_core.Cache.Invariant.{IsValid}

module _ {ℓ} {V : Type ℓ} where
  -- The abstract cache: the value under a key at a time, if it is there and has not expired.
  abbrev pub fresh : ℕ → Option (Item V) → Option V
  fresh now none = none
  fresh now (some item) = if is_expired item now then none else some item.value

  abbrev pub live : ℕ → Text → MemoryCache V → Option V
  live now key c = fresh now (lookup key c.items)

  is_expired_mono :
      (item : Item V) (s t : ℕ) → s ≤ t → is_expired item s ≡ true → is_expired item t ≡ true
  unfolding is_expired
  is_expired_mono item s t h e = ground arith

  fresh_used :
      (t : ℕ) (item : Item V) (later n : ℕ)
      → fresh t (some (record item { access_at = later; hit_count = n })) ≡ fresh t (some item)
  unfolding is_expired
  fresh_used t item later n = refl

  pub lookup-delete_items :
      (key j : Text) (c : MemoryCache V)
      → lookup j (delete key c).items ≡ (if text_eq key j then none else lookup j c.items)
  unfolding delete
  lookup-delete_items key j c = elim (Option-cases (lookup key c.items)) [
    | inl e ↦ rw (e, delete) (ground (arith, text_eq_iff key j, e))
    | inr (item, e) ↦ rw (e, delete) (Dict.lookup-delete key j c.items)
  ]

  get_hit-items :
      (key : Text) (item : Item V) (later : ℕ) (c : MemoryCache V)
      → (get_hit key item later c).items
        ≡ Dict.insert key
            (record item { access_at = later; hit_count = add64 item.hit_count 1 })
            c.items
  unfolding get_hit calculate_hit_rate
  get_hit-items key item later c = ground arith

  get_answer :
      (key : Text) (now later : ℕ) (c : MemoryCache V) → (get key now later c).1 ≡ live now key c
  unfolding get
  get_answer key now later c = ground arith

  fresh_under :
      (t now : ℕ) (key j : Text) (item : Item V) (c : MemoryCache V)
      → lookup key c.items ≡ some item
      → is_expired item now ≡ true
      → now ≤ t
      → fresh t (if text_eq key j then none else lookup j c.items) ≡ live t j c
  fresh_under t now key j item c found x h = elim (Bool-cases (text_eq key j)) [
    | inl same ↦
        let at_j : lookup j c.items ≡ some item =
          subst (λ k. lookup k c.items ≡ some item) ((text_eq_iff key j).0 same) found in
        rw (same, at_j, is_expired_mono item now t h x)
    | inr other ↦ rw other
  ]

  abbrev used : ℕ → Item V → Item V
  used later item = record item { access_at = later; hit_count = add64 item.hit_count 1 }

  fresh_same :
      (t : ℕ) (key j : Text) (item : Item V) (later : ℕ) (c : MemoryCache V)
      → lookup key c.items ≡ some item
      → fresh t (if text_eq key j then some (used later item) else lookup j c.items) ≡ live t j c
  fresh_same t key j item later c found = elim (Bool-cases (text_eq key j)) [
    | inl same ↦
        let at_j : lookup j c.items ≡ some item =
          subst (λ k. lookup k c.items ≡ some item) ((text_eq_iff key j).0 same) found in
        rw (same, at_j) (fresh_used t item later (add64 item.hit_count 1))
    | inr other ↦ rw other
  ]

  get_keeps :
      (key : Text) (now later t : ℕ) (j : Text) (c : MemoryCache V)
      → now ≤ t
      → live t j (get key now later c).0 ≡ live t j c
  unfolding get get_expired count_miss
  get_keeps key now later t j c h = elim (Option-cases (lookup key c.items)) [
    | inl e ↦ rw (e, get)
    | inr (item, e) ↦ elim (Bool-cases (is_expired item now)) [
      | inl x ↦
          rw (e, get)
            (rw x
              (ap (fresh t) (lookup-delete_items key j c) ∙ fresh_under t now key j item c e x h))
      | inr x ↦
          rw (e, get)
            (rw x (
              ap (fresh t) (
                ap (lookup j) (get_hit-items key item later c)
                ∙ Dict.lookup-insert key j (used later item) c.items)
              ∙ fresh_same t key j item later c e))
    ]
  ]

  -- `Get` answers the value that is live at the time of its test, and changes no answer that a later
  -- `Get`, of any key, gives.
  pub get-live :
      (key : Text) (now later : ℕ) (c : MemoryCache V)
      → ((get key now later c).1 ≡ live now key c)
        × ((t : ℕ) (j : Text) → now ≤ t → live t j (get key now later c).0 ≡ live t j c)
  get-live key now later c = (get_answer key now later c, λ t j h. get_keeps key now later t j c h)

  fresh_kept :
      (now t : ℕ) (o : Option (Item V))
      → now ≤ t
      → fresh t (elim o [ none ↦ none | some v ↦ if not (is_expired v now) then some v else none ])
        ≡ fresh t o
  fresh_kept now t none h = refl
  fresh_kept now t (some item) h = elim (Bool-cases (is_expired item now)) [
    | inl e ↦ rw (e, is_expired_mono item now t h e)
    | inr e ↦ rw e
  ]

  -- A cleanup of a valid cache changes no answer that a `Get` gives, for a key and a time that is not
  -- before the cleanup's test of the key.
  pub perform_cleanup-live :
      (now t : ℕ) (clock : Text → ℕ) (j : Text) (c : MemoryCache V)
      → IsValid c
      → clock j ≤ t
      → live t j (perform_cleanup now clock c) ≡ live t j c
  unfolding perform_cleanup
  perform_cleanup-live now t clock j c v h =
      ap (λ m. fresh t (lookup j m))
        (Dict.delete_keys-select (λ k item. is_expired item (clock k)) c.items v.distinct)
      ∙ (ap (fresh t)
            (Dict.lookup-keep (λ k item. not (is_expired item (clock k))) j c.items v.distinct)
          ∙ fresh_kept (clock j) t (lookup j c.items) h)

  -- In a valid cache `DeletePattern` leaves no entry whose key matches and every other entry as it
  -- was, and the count that it returns is the number of entries that are gone.
  pub delete_pattern_lem :
      (pattern : Text) (c : MemoryCache V)
      → IsValid c
      → ((j : Text)
          → lookup j (delete_pattern pattern c).0.items
            ≡ (if match_pattern j pattern then none else lookup j c.items))
        × ((delete_pattern pattern c).1 + length (delete_pattern pattern c).0.items
            ≡ length c.items)
  unfolding delete_pattern
  delete_pattern_lem pattern c v =
      let p : Text → Item V → Bool = λ k item. match_pattern k pattern in
      let kept = Dict.delete_keys-select p c.items v.distinct in
      (
        λ j.
            ap (lookup j) kept
            ∙ (Dict.lookup-keep (λ k item. not (p k item)) j c.items v.distinct ∙ ground arith),
        rw kept (Dict.length-select p c.items),
      )

  pub set-items :
      (key : Text) (value : V) (ttl : ℤ) (now : ℕ) (j : Text) (c : MemoryCache V)
      → lookup j (set key value ttl now c).items ≡ (
          if text_eq key j
          then some (record {
            value = value;
            expires_at = expiry now ttl c.default_ttl;
            created_at = now;
            access_at = now;
            hit_count = 0;
          })
          else lookup j
              (if leb_int c.max_size (pos (length c.items)) then evict_oldest c else c).items)
  unfolding set
  set-items key value ttl now j c = Dict.lookup-insert key j _ _

  -- What was set with a positive time to live is answered until that time has passed, and no longer.
  pub set-live_self :
      (key : Text) (value : V) (ttl : ℤ) (now t : ℕ) (c : MemoryCache V)
      → 0 < pos_part ttl
      → live t key (set key value ttl now c)
        ≡ (if leb t (now + pos_part ttl) then some value else none)
  unfolding expiry is_expired
  set-live_self key value (pos n) now t c h =
      rw (set-items key value (pos n) now key c, (text_eq_iff key key).1 refl) (ground arith)
  set-live_self key value (negsuc n) now t c h = absurd (omega arith)
