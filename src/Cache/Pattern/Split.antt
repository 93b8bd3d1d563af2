-- ===== src/Cache/Pattern/Split.antt =====
-- internal/cache/memory_cache.go: `split`.
use mathlib.Core.List.{append_assoc, append-nil}
use mathlib.Core.Option
use mathlib.Core.Path.{ap₂}
use tmidb_core.Base.{
  ℕ, zero, suc, ◌+◌, ◌≤◌, ◌<◌, ◌≡◌, ◌≢◌, refl, sym, ap, ◌∙◌, List, [], ◌∷◌, ◌++◌, none, some, arith,
  length, take, drop, length-append, length-drop, take-append-drop, Text, text_eq, inl, inr,
  Option-cases, All, ◌==◌, if◌then◌else◌,
}
use tmidb_core.Cache.Pattern.{has_prefix, index_of, split_from, split}
use tmidb_core.Cache.Pattern.Search.{index_of_hit, index_of_sound, take-length-append}

-- The parts put together again with a separator between them.
abbrev pub behind : Text → List Text → Text
behind sep [] = []
behind sep (q ∷ rest) = sep ++ (q ++ behind sep rest)

abbrev pub join : Text → List Text → Text
join sep [] = []
join sep (p ∷ rest) = p ++ behind sep rest

-- The text does not hold the separator.
abbrev pub IsFree : Text → Text → Type 0
IsFree sep p = index_of p sep ≡ none

length-take-le : (n : ℕ) (s : Text) → length (take n s) ≤ n
length-take-le zero s = omega arith
length-take-le (suc n) [] = omega arith
length-take-le (suc n) (c ∷ s) = omega (arith, length-take-le n s)

-- An occurrence in `u` is one in `u ++ d`, and lies inside `u`.
index_of-append :
    (u sep d : Text) (q : ℕ)
    → index_of u sep ≡ some q
    → (i : ℕ) × (index_of (u ++ d) sep ≡ some i) × (i + length sep ≤ length u)
index_of-append u sep d q h =
    let x : Text = take q u in
    let y : Text = drop (q + length sep) u in
    let e : u ≡ x ++ (sep ++ y) = index_of_sound u sep q h in
    let (i, found, bound) = index_of_hit x sep (y ++ d) in
    let whole : u ++ d ≡ x ++ (sep ++ (y ++ d)) =
      ap (λ t. t ++ d) e
      ∙ (append_assoc x (sep ++ y) d ∙ ap (λ t. x ++ t) (append_assoc sep y d)) in
    (
      i,
      ap (λ t. index_of t sep) whole ∙ found,
      omega (arith, ap length e, length-append {0} x (sep ++ y), length-append {0} sep y),
    )

-- What stands before the first separator is free of it.
take-IsFree :
    (s sep : Text) (p : ℕ) → 0 < length sep → index_of s sep ≡ some p → IsFree sep (take p s)
take-IsFree s sep p nonempty found = elim (Option-cases (index_of (take p s) sep)) [
  | inl free ↦ free
  | inr (q, hit) ↦
      let (i, again, inside) = index_of-append (take p s) sep (drop p s) q hit in
      let same : some i ≡ some p =
        sym again ∙ (ap (λ t. index_of t sep) (take-append-drop p s) ∙ found) in
      absurd (ground (arith, length-take-le p s))
]

split_from_cons :
    (fuel : ℕ) (s sep : Text)
    → (q : Text) × (rest : List Text) × (split_from (suc fuel) s sep ≡ q ∷ rest)
unfolding split_from
split_from_cons fuel s sep = elim (Option-cases (index_of s sep)) [
  | inl e ↦ (s, [], rw (e, split_from))
  | inr (p, e) ↦ (take p s, split_from fuel (drop (p + length sep) s) sep, rw (e, split_from))
]

behind-split_from :
    (fuel : ℕ) (s sep : Text)
    → length s < fuel
    → behind sep (split_from fuel s sep) ≡ sep ++ join sep (split_from fuel s sep)
behind-split_from zero s sep h = absurd (omega arith)
behind-split_from (suc fuel) s sep h = let (q, rest, e) = split_from_cons fuel s sep in rw e

-- With enough rounds the parts make up the text, and none of them holds the separator.
split_from_lem :
    (fuel : ℕ) (s sep : Text)
    → 0 < length sep
    → length s < fuel
    → (join sep (split_from fuel s sep) ≡ s) × All (IsFree sep) (split_from fuel s sep)
unfolding split_from
split_from_lem zero s sep nonempty h = absurd (omega arith)
split_from_lem (suc fuel) s sep nonempty h = elim (Option-cases (index_of s sep)) [
  | inl e ↦ rw (e, split_from) (append-nil s, (e, tt))
  | inr (p, e) ↦
      let rest : Text = drop (p + length sep) s in
      let found : s ≡ take p s ++ (sep ++ rest) = index_of_sound s sep p e in
      let less : length rest < fuel = omega (
        arith,
        ap length found,
        length-append {0} (take p s) (sep ++ rest),
        length-append {0} sep rest,
        length-drop (p + length sep) s,
      ) in
      let (joined, free) = split_from_lem fuel rest sep nonempty less in
      let tail : behind sep (split_from fuel rest sep) ≡ sep ++ rest =
        behind-split_from fuel rest sep less ∙ ap (λ t. sep ++ t) joined in
      rw (e, split_from)
        (ap (λ t. take p s ++ t) tail ∙ sym found, (take-IsFree s sep p nonempty e, free))
]

-- Splitting at a separator that is not empty loses nothing: put together again with the separator,
-- the parts are the text, and no part holds the separator.
pub join-split :
    (s sep : Text) → sep ≢ [] → (join sep (split s sep) ≡ s) × All (IsFree sep) (split s sep)
unfolding split
join-split s [] h = absurd (h refl)
join-split s (c ∷ sep) h = split_from_lem (suc (length s)) s (c ∷ sep) (omega arith) (omega arith)

-- One separator character.
pub index_of_single :
    (a c : ℕ) (s : Text)
    → index_of (c ∷ s) (a ∷ []) ≡ (if c == a then some 0 else Option.map suc (index_of s (a ∷ [])))
unfolding index_of has_prefix text_eq
index_of_single a c s = ground arith

drop-past : (p : Text) (a : ℕ) (t : Text) → drop (length p + 1) (p ++ a ∷ t) ≡ t
drop-past [] a t = refl
drop-past (c ∷ p) a t =
    let e : suc (length p) + 1 ≡ suc (length p + 1) = omega arith in rw e (drop-past p a t)

pub index_of-IsFree-append :
    (a : ℕ) (p t : Text) → IsFree (a ∷ []) p → index_of (p ++ a ∷ t) (a ∷ []) ≡ some (length p)
index_of-IsFree-append a [] t h = ground (arith, index_of_single a a t)
index_of-IsFree-append a (c ∷ p) t h =
    ground
      (arith, index_of_single a c p, index_of_single a c (p ++ a ∷ t), index_of-IsFree-append a p t)

-- Splitting at a character what was joined with it gives the parts back.
split_from-join :
    (a : ℕ) (p : Text) (rest : List Text) (fuel : ℕ)
    → All (IsFree (a ∷ [])) (p ∷ rest)
    → length (join (a ∷ []) (p ∷ rest)) < fuel
    → split_from fuel (join (a ∷ []) (p ∷ rest)) (a ∷ []) ≡ p ∷ rest
unfolding split_from
split_from-join a p rest zero free h = absurd (omega arith)
split_from-join a p [] (suc fuel) free h = rw (append-nil p) (rw (free.0, split_from) refl)
split_from-join a p (q ∷ rest) (suc fuel) free h =
    let t : Text = join (a ∷ []) (q ∷ rest) in
    let hit : index_of (p ++ a ∷ t) (a ∷ []) ≡ some (length p) =
      index_of-IsFree-append a p t free.0 in
    let back : drop (length p + 1) (p ++ a ∷ t) ≡ t = drop-past p a t in
    let less : length t < fuel = omega (arith, h, length-append {0} p (a ∷ t)) in
    rw (hit, split_from)
      (ap₂ (λ x y. x ∷ y) (take-length-append p (a ∷ t))
        (ap (λ r. split_from fuel r (a ∷ [])) back ∙ split_from-join a q rest fuel free.1 less))

-- Splitting at one character what was joined with it gives the parts back, if none of them holds
-- that character.
pub split-join :
    (a : ℕ) (p : Text) (rest : List Text)
    → All (IsFree (a ∷ [])) (p ∷ rest)
    → split (join (a ∷ []) (p ∷ rest)) (a ∷ []) ≡ p ∷ rest
unfolding split
split-join a p rest free =
    split_from-join a p rest (suc (length (join (a ∷ []) (p ∷ rest)))) free (omega arith)
