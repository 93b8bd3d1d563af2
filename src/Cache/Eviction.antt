-- ===== src/Cache/Eviction.antt =====
-- internal/cache/memory_cache.go: which entry `evictOldest` removes, and when it removes none.
use tmidb_core.Base.{
  ℕ, ◌≤◌, ◌<◌, ◌≡◌, ◌≢◌, refl, sym, ap, subst, ◌∙◌, true, false, ◌||◌, List, [], ◌∷◌, ◌++◌, none,
  some, ltb, Text, is_empty, All, arith, Bool-cases, ◌⊎◌, inl, inr, text_eq, text_eq_iff,
}
use tmidb_core.Base.Dict
use tmidb_core.Base.Dict.{Distinct, lookup}
use tmidb_core.Cache.Store.{Item, MemoryCache, oldest, evict_oldest}

module _ {ℓ} {V : Type ℓ} where
  -- No entry was used before `time`.
  abbrev pub UsedSince : ℕ → List (Text × Item V) → Type 0
  UsedSince time = All (λ e. time ≤ e.1.access_at)

  UsedSince-mono : {s t : ℕ} (m : List (Text × Item V)) → s ≤ t → UsedSince t m → UsedSince s m
  UsedSince-mono [] h u = u
  UsedSince-mono (e ∷ m) h u = (omega arith, UsedSince-mono m h u.1)

  -- What the loop returns: the key it started with, or the key of an entry of the rest; nothing
  -- was used before it.
  record OldestOf (m : List (Text × Item V)) (key : Text) (time : ℕ) (found : Text) : Type ℓ where
    pub least : ℕ
    pub least_le : least ≤ time
    pub since : UsedSince least m
    pub which :
        ((found ≡ key) × (least ≡ time))
        ⊎ ((item : Item V) × (lookup found m ≡ some item) × (item.access_at ≡ least))

  lookup-cons_of_some :
      (i r : Text) (w item : Item V) (m : List (Text × Item V))
      → lookup i m ≡ none
      → lookup r m ≡ some item
      → lookup r ((i, w) ∷ m) ≡ some item
  unfolding lookup
  lookup-cons_of_some i r w item m absent found = elim (Bool-cases (text_eq i r)) [
    | inl e ↦
        let gone : lookup r m ≡ none =
          subst (λ k. lookup k m ≡ none) ((text_eq_iff i r).0 e) absent in
        absurd (cc)
    | inr e ↦ rw e found
  ]

  take_entry :
      (i key : Text) (w : Item V) (time : ℕ) (m : List (Text × Item V)) (r : Text)
      → lookup i m ≡ none
      → w.access_at ≤ time
      → OldestOf m i w.access_at r
      → OldestOf ((i, w) ∷ m) key time r
  unfolding lookup
  take_entry i key w time m r absent older o = record {
    least = o.least;
    least_le = omega arith;
    since = (o.least_le, o.since);
    which = elim o.which [
      | inl (e, l) ↦ inr (w, rw (e, (text_eq_iff i i).1 refl), sym l)
      | inr (item, found, l) ↦ inr (item, lookup-cons_of_some i r w item m absent found, l)
    ];
  }

  skip_entry :
      (i key : Text) (w : Item V) (time : ℕ) (m : List (Text × Item V)) (r : Text)
      → lookup i m ≡ none
      → time ≤ w.access_at
      → OldestOf m key time r
      → OldestOf ((i, w) ∷ m) key time r
  skip_entry i key w time m r absent newer o = record {
    least = o.least;
    least_le = o.least_le;
    since = (omega (arith, o.least_le), o.since);
    which = elim o.which [
      | inl e ↦ inl e
      | inr (item, found, l) ↦ inr (item, lookup-cons_of_some i r w item m absent found, l)
    ];
  }

  named_head :
      (i : Text) (w : Item V) (m : List (Text × Item V))
      → lookup [] ((i, w) ∷ m) ≡ none
      → (is_empty i ≡ false) × (lookup [] m ≡ none)
  unfolding lookup text_eq
  named_head [] w m n = absurd (cc)
  named_head (c ∷ i) w m n = (refl, n)

  oldest-OldestOf :
      (m : List (Text × Item V)) (key : Text) (time : ℕ)
      → Distinct m
      → lookup [] m ≡ none
      → is_empty key ≡ false
      → OldestOf m key time (oldest m key time)
  unfolding oldest
  oldest-OldestOf [] key time d n k = record {
    least = time;
    least_le = omega arith;
    since = tt;
    which = inl (refl, refl);
  }
  oldest-OldestOf ((i, w) ∷ m) key time d n k = elim (Bool-cases (ltb w.access_at time)) [
    | inl e ↦
        rw (k, e)
          (take_entry i key w time m (oldest m i w.access_at) d.0 (ground arith)
            (oldest-OldestOf m i w.access_at d.1 (named_head i w m n).1 (named_head i w m n).0))
    | inr e ↦
        rw (k, e)
          (skip_entry i key w time m (oldest m key time) d.0 (ground arith)
            (oldest-OldestOf m key time d.1 (named_head i w m n).1 k))
  ]

  -- In a cache with an entry, and none under the empty key, the loop finds an entry, and no entry
  -- was used before it.
  pub oldest_first :
      (m : List (Text × Item V))
      → m ≢ []
      → Distinct m
      → lookup [] m ≡ none
      → (item : Item V) × (lookup (oldest m [] 0) m ≡ some item) × UsedSince item.access_at m
  unfolding oldest lookup
  oldest_first [] h d n = absurd (h refl)
  oldest_first ((i, w) ∷ m) h d n =
      let o = oldest-OldestOf m i w.access_at d.1 (named_head i w m n).1 (named_head i w m n).0 in
      elim o.which [
        | inl (e, l) ↦ (
          w,
          rw (e, (text_eq_iff i i).1 refl),
          (omega arith, subst (λ t. UsedSince t m) l o.since),
        )
        | inr (item, found, l) ↦ (
          item,
          lookup-cons_of_some i (oldest m i w.access_at) w item m d.0 found,
          (omega (arith, o.least_le), subst (λ t. UsedSince t m) (sym l) o.since),
        )
      ]

  named_of_some :
      (k : Text) (m : List (Text × Item V)) (item : Item V)
      → lookup [] m ≡ none
      → lookup k m ≡ some item
      → is_empty k ≡ false
  named_of_some [] m item n h = absurd (cc)
  named_of_some (c ∷ k) m item n h = refl

  -- Evicting from a cache with an entry, and none under the empty key, removes one entry and no
  -- other, and nothing in the cache was used before it.
  pub evict_oldest_lem :
      (c : MemoryCache V)
      → c.items ≢ []
      → Distinct c.items
      → lookup [] c.items ≡ none
      → (key : Text) × (item : Item V) × (lookup key c.items ≡ some item)
        × UsedSince item.access_at c.items
        × ((evict_oldest c).items ≡ Dict.delete key c.items)
  unfolding evict_oldest
  evict_oldest_lem c h d n =
      let key = oldest c.items [] 0 in
      let (item, found, since) = oldest_first c.items h d n in
      let named : is_empty key ≡ false = named_of_some key c.items item n found in
      (key, item, found, since, rw named)

  -- No entry of the list is under the empty key.
  abbrev pub Named : List (Text × Item V) → Type 0
  Named = All (λ e. is_empty e.0 ≡ false)

  oldest_empty_last :
      (m : List (Text × Item V)) (item : Item V) (key : Text) (time : ℕ)
      → Named m
      → All (λ e. item.access_at < e.1.access_at) m
      → (is_empty key || ltb item.access_at time) ≡ true
      → oldest (m ++ ([], item) ∷ []) key time ≡ []
  unfolding oldest
  oldest_empty_last [] item key time n u h = rw h
  oldest_empty_last ((i, w) ∷ m) item key time n u h =
      elim (Bool-cases (is_empty key || ltb w.access_at time)) [
        | inl e ↦ rw (e, oldest) (oldest_empty_last m item i w.access_at n.1 u.1 (ground arith))
        | inr e ↦ rw (e, oldest) (oldest_empty_last m item key time n.1 u.1 h)
      ]

  -- The empty string also marks that no key was found yet. So an entry under the empty key that is
  -- older than every other, and that the loop meets last, is not evicted, and nothing else is.
  pub evict_oldest_empty_key :
      (c : MemoryCache V) (m : List (Text × Item V)) (item : Item V)
      → c.items ≡ m ++ ([], item) ∷ []
      → Named m
      → All (λ e. item.access_at < e.1.access_at) m
      → evict_oldest c ≡ c
  unfolding evict_oldest
  evict_oldest_empty_key c m item e n u =
      let found : oldest c.items [] 0 ≡ [] =
        ap (λ l. oldest l [] 0) e ∙ oldest_empty_last m item [] 0 n u refl in
      rw found
