-- ===== src/Cache/Pattern/Ordered.antt =====
-- internal/cache/memory_cache.go: the texts that `matchPattern` accepts.
use mathlib.Core.List.{append_assoc, append-nil}
use tmidb_core.Base.{
  ◌+◌, ◌-◌, ◌≡◌, ◌↔◌, refl, sym, ap, ◌∙◌, true, ◌&&◌, List, [], ◌∷◌, ◌++◌, some, arith, length,
  length-append, drop, drop-length-append, take, take-append-drop, Text, text_eq, text_eq_iff,
  is_empty, All, Bool-cases, Option-cases, inl, inr,
}
use tmidb_core.Cache.Pattern.{
  has_prefix, has_suffix, index_of, contains, split, star, last_part, inner, match_middle,
  match_parts, match_pattern,
}
use tmidb_core.Cache.Pattern.Search.{
  index_of_sound, has_prefix-append, has_suffix-append, has_prefix_split,
}
use tmidb_core.Cache.Pattern.Split.{join, behind, split-join, index_of-IsFree-append}
use tmidb_core.Cache.Pattern.Weave.{StarFree, match_middle-cons}

-- The parts occur in the text one behind the other.
abbrev pub InOrder : List Text → Text → Type 0
InOrder [] t = Unit
InOrder (q ∷ rest) t = (x : Text) × (y : Text) × (t ≡ x ++ (q ++ y)) × InOrder rest y

append-InOrder : (parts : List Text) (z y : Text) → InOrder parts y → InOrder parts (z ++ y)
append-InOrder [] z y o = tt
append-InOrder (q ∷ rest) z y (x, u, e, o) =
    (z ++ x, u, ap (λ t. z ++ t) e ∙ sym (append_assoc z x (q ++ u)), o)

InOrder-match_middle :
    (parts : List Text) (t : Text) → InOrder parts t → match_middle parts t ≡ true
unfolding match_middle
InOrder-match_middle [] t o = refl
InOrder-match_middle (q ∷ rest) t (x, y, e, o) =
    ap (match_middle (q ∷ rest)) e
    ∙ match_middle-cons q rest x y
        (λ z. InOrder-match_middle rest (z ++ y) (append-InOrder rest z y o))

match_middle-InOrder :
    (parts : List Text) (t : Text) → match_middle parts t ≡ true → InOrder parts t
unfolding match_middle
match_middle-InOrder [] t h = tt
match_middle-InOrder ([] ∷ rest) t h = ([], t, refl, match_middle-InOrder rest t h)
match_middle-InOrder ((c ∷ q) ∷ rest) t h = elim (Option-cases (index_of t (c ∷ q))) [
  | inl e ↦ absurd (ground (arith, e, h))
  | inr (i, e) ↦
      let y = drop (i + length (c ∷ q)) t in
      (
        take i t,
        y,
        index_of_sound t (c ∷ q) i e,
        match_middle-InOrder rest y (ground (arith, e, h)),
      )
]

has_suffix_split : (s q : Text) → has_suffix s q ≡ true → (u : Text) × (s ≡ u ++ q)
unfolding has_suffix
has_suffix_split s q h =
    let n = length s - length q in
    let e : text_eq (drop n s) q ≡ true = ground arith in
    (take n s, sym (take-append-drop n s) ∙ ap (λ t. take n s ++ t) ((text_eq_iff _ _).0 e))

has_prefix-is_empty : (s p : Text) → is_empty p ≡ true → has_prefix s p ≡ true
has_prefix-is_empty s [] h = has_prefix-append [] s
has_prefix-is_empty s (c ∷ p) h = absurd (cc)

has_suffix-is_empty : (s q : Text) → is_empty q ≡ true → has_suffix s q ≡ true
has_suffix-is_empty s [] h = ap (λ t. has_suffix t []) (sym (append-nil s)) ∙ has_suffix-append s []
has_suffix-is_empty s (c ∷ q) h = absurd (cc)

match_parts_eq :
    (s p q : Text) (qs : List Text)
    → match_parts s (p ∷ q ∷ qs) ≡ (
        has_prefix s p
        && (has_suffix s (last_part q qs) && match_middle (inner (q ∷ qs)) (drop (length p) s)))
unfolding match_parts
match_parts_eq s p q qs =
    ground (arith, has_prefix-is_empty s p, has_suffix-is_empty s (last_part q qs))

-- What a pattern asks of a text: its first part in front, its last part at the end, and the others in
-- order behind the first.
abbrev pub Described : Text → Text → List Text → Text → Type 0
Described p q qs s =
    (t : Text) × (s ≡ p ++ t)
    × ((u : Text) × (s ≡ u ++ last_part q qs))
    × InOrder (inner (q ∷ qs)) t

match_parts-Described :
    (s p q : Text) (qs : List Text) → (match_parts s (p ∷ q ∷ qs) ≡ true) ↔ Described p q qs s
match_parts-Described s p q qs = (
  λ h.
      let middle = drop (length p) s in
      let tests = sym (match_parts_eq s p q qs) ∙ h in
      let front : has_prefix s p ≡ true = ground (arith, tests) in
      let back : has_suffix s (last_part q qs) ≡ true = ground (arith, tests) in
      let rest : match_middle (inner (q ∷ qs)) middle ≡ true = ground (arith, tests) in
      (
        middle,
        has_prefix_split s p front,
        has_suffix_split s (last_part q qs) back,
        match_middle-InOrder (inner (q ∷ qs)) middle rest,
      ),
  λ (t, front, (u, back), order).
      let a : has_prefix s p ≡ true = ap (λ r. has_prefix r p) front ∙ has_prefix-append p t in
      let b : has_suffix s (last_part q qs) ≡ true =
        ap (λ r. has_suffix r (last_part q qs)) back ∙ has_suffix-append u (last_part q qs) in
      let c : match_middle (inner (q ∷ qs)) (drop (length p) s) ≡ true =
        ap (match_middle (inner (q ∷ qs))) (ap (drop (length p)) front ∙ drop-length-append p t)
        ∙ InOrder-match_middle (inner (q ∷ qs)) t order in
      match_parts_eq s p q qs ∙ ground (arith, a, b, c),
)

bare_star-Described :
    (s p q : Text) (qs : List Text) → join (star ∷ []) (p ∷ q ∷ qs) ≡ star ∷ [] → Described p q qs s
bare_star-Described s [] [] [] e = (s, refl, (s, sym (append-nil s)), tt)
bare_star-Described s [] [] (r ∷ qs) e = absurd (omega (arith, ap length e))
bare_star-Described s [] (c ∷ q) qs e = absurd (omega (arith, ap length e))
bare_star-Described s (c ∷ p) q qs e =
    absurd (omega (arith, ap length e, length-append {0} p (star ∷ (q ++ behind (star ∷ []) qs))))

-- A pattern with a star accepts exactly the texts that have its first part in front, its last part
-- at the end, and its other parts in order behind the first; the parts are free of stars. The end
-- may overlap with what stands before it.
pub match_pattern_iff :
    (s p q : Text) (qs : List Text)
    → All StarFree (p ∷ q ∷ qs)
    → (match_pattern s (join (star ∷ []) (p ∷ q ∷ qs)) ≡ true) ↔ Described p q qs s
unfolding match_pattern contains
match_pattern_iff s p q qs free =
    let pattern = join (star ∷ []) (p ∷ q ∷ qs) in
    let found : index_of pattern (star ∷ []) ≡ some (length p) =
      index_of-IsFree-append star p (join (star ∷ []) (q ∷ qs)) free.0 in
    let cut : match_parts s (split pattern (star ∷ [])) ≡ match_parts s (p ∷ q ∷ qs) =
      ap (match_parts s) (split-join star p (q ∷ qs) free) in
    elim (Bool-cases (text_eq pattern (star ∷ []))) [
      | inl e ↦ (λ h. bare_star-Described s p q qs ((text_eq_iff _ _).0 e), λ d. ground (arith, e))
      | inr e ↦
          let same : match_pattern s pattern ≡ match_parts s (p ∷ q ∷ qs) =
            ground (arith, e, found, cut) in
          (
            λ h. (match_parts-Described s p q qs).0 (sym same ∙ h),
            λ d. same ∙ (match_parts-Described s p q qs).1 d,
          )
    ]
