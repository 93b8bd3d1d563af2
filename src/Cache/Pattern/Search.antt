-- ===== src/Cache/Pattern/Search.antt =====
-- internal/cache/memory_cache.go: `indexOf`, `hasPrefix` and `hasSuffix`.
use tmidb_core.Base.{
  ◌≢◌, ℕ, zero, suc, ◌+◌, ◌-◌, ◌≤◌, ◌≡◌, refl, sym, ap, ◌∙◌, true, [], ◌∷◌, ◌++◌, none, some, arith,
  length, take, drop, length-append, drop-length-append, take-append-drop, le→leb, Text, text_eq,
  text_eq_refl, text_eq_iff, Bool-cases, inl, inr,
}
use tmidb_core.Cache.Pattern.{has_prefix, has_suffix, index_of}

pub take-length-append : (x y : Text) → take (length x) (x ++ y) ≡ x
take-length-append [] y = refl
take-length-append (c ∷ x) y = ap (◌∷◌ c) (take-length-append x y)

pub has_prefix-append : (x y : Text) → has_prefix (x ++ y) x ≡ true
unfolding has_prefix
has_prefix-append x y = rw (
  take-length-append x y,
  text_eq_refl x,
  le→leb (length x) (length (x ++ y)) (omega (arith, length-append {0} x y)),
)

pub has_suffix-append : (x y : Text) → has_suffix (x ++ y) y ≡ true
unfolding has_suffix
has_suffix-append x y =
    let n : length (x ++ y) - length y ≡ length x = omega (arith, length-append {0} x y) in
    rw (
      n,
      drop-length-append x y,
      text_eq_refl y,
      le→leb (length y) (length (x ++ y)) (omega (arith, length-append {0} x y)),
    )

-- What `hasPrefix` answers, as a decomposition.
pub has_prefix_split : (s p : Text) → has_prefix s p ≡ true → s ≡ p ++ drop (length p) s
unfolding has_prefix
has_prefix_split s p h =
    let e : text_eq (take (length p) s) p ≡ true = ground arith in
    sym (take-append-drop (length p) s) ∙ ap (λ t. t ++ drop (length p) s) ((text_eq_iff _ _).0 e)

pub index_of-prefix : (s sub : Text) → has_prefix s sub ≡ true → index_of s sub ≡ some 0
unfolding index_of
index_of-prefix [] sub h = rw h
index_of-prefix (c ∷ s) sub h = rw h

-- An occurrence at `x` is found at or before it.
pub index_of_hit :
    (x sub y : Text) → (i : ℕ) × (index_of (x ++ (sub ++ y)) sub ≡ some i) × (i ≤ length x)
unfolding index_of
index_of_hit [] sub y = (0, index_of-prefix (sub ++ y) sub (has_prefix-append sub y), omega arith)
index_of_hit (c ∷ x) sub y =
    let (i, found, bound) = index_of_hit x sub y in
    elim (Bool-cases (has_prefix (c ∷ (x ++ (sub ++ y))) sub)) [
      | inl e ↦ (0, rw e, omega arith)
      | inr e ↦ (suc i, rw (e, found), omega arith)
    ]

sound_here : (s sub : Text) → has_prefix s sub ≡ true → s ≡ sub ++ drop (0 + length sub) s
sound_here s sub h =
    let e : 0 + length sub ≡ length sub = omega arith in rw e (has_prefix_split s sub h)

-- What is found is an occurrence.
pub index_of_sound :
    (s sub : Text) (i : ℕ)
    → index_of s sub ≡ some i
    → s ≡ take i s ++ (sub ++ drop (i + length sub) s)
unfolding index_of
index_of_sound [] sub zero h = sound_here [] sub (ground arith)
index_of_sound [] sub (suc i) h = absurd (ground arith)
index_of_sound (c ∷ s) sub zero h = elim (Bool-cases (has_prefix (c ∷ s) sub)) [
  | inl e ↦ sound_here (c ∷ s) sub e
  | inr e ↦ absurd (ground arith)
]
index_of_sound (c ∷ s) sub (suc i) h =
    let e : suc i + length sub ≡ suc (i + length sub) = omega arith in
    rw e (ap (◌∷◌ c) (index_of_sound s sub i (ground arith)))

-- The text before the first occurrence, with a part of the occurrence, holds none.
pub index_of-none : (x sub y : Text) → index_of (x ++ (sub ++ y)) sub ≢ none
index_of-none x sub y h = let (i, found, bound) = index_of_hit x sub y in cc
