-- ===== src/Cache/Pattern/Weave.antt =====
-- internal/cache/memory_cache.go: `matchPattern` on the texts that a pattern describes.
use mathlib.Core.List.{append_assoc, append-nil}
use tmidb_core.Base.{
  ◌+◌, ◌≡◌, refl, sym, ap, ◌∙◌, true, List, [], ◌∷◌, ◌++◌, none, some, arith, length, drop,
  length-append, drop-length-append, drop-append_le, Text, text_eq_refl, All,
}
use tmidb_core.Cache.Pattern.{
  has_suffix, index_of, contains, split, star, last_part, inner, match_middle, match_parts,
  match_pattern,
}
use tmidb_core.Cache.Pattern.Search.{index_of_hit, has_prefix-append, has_suffix-append}
use tmidb_core.Cache.Pattern.Split.{join, IsFree, split-join, index_of-IsFree-append}

abbrev pub StarFree : Text → Type 0
StarFree = IsFree (star ∷ [])

-- Each star of a pattern with the text that stands for it, and the part that follows.
abbrev pub Segments : Type 0
Segments = List (Text × Text)

abbrev pub parts : Segments → List Text
parts [] = []
parts ((x, q) ∷ segs) = q ∷ parts segs

-- The text that the pattern describes, with the stars filled in.
abbrev pub weave : Segments → Text
weave [] = []
weave ((x, q) ∷ segs) = x ++ (q ++ weave segs)

weave-last_part :
    (x q : Text) (segs : Segments)
    → (t : Text) × (x ++ (q ++ weave segs) ≡ t ++ last_part q (parts segs))
weave-last_part x q [] = (x, ap (λ t. x ++ t) (append-nil q))
weave-last_part x q ((y, r) ∷ segs) =
    let (t, e) = weave-last_part y r segs in
    (
      x ++ (q ++ t),
      ap (λ u. x ++ (q ++ u)) e
          ∙ (ap (λ u. x ++ u) (sym (append_assoc q t _)) ∙ sym (append_assoc x (q ++ t) _)),
    )

-- A part is found no later than where it stands, and what follows it is left.
pub match_middle-cons :
    (q : Text) (rest : List Text) (x y : Text)
    → ((z : Text) → match_middle rest (z ++ y) ≡ true)
    → match_middle (q ∷ rest) (x ++ (q ++ y)) ≡ true
unfolding match_middle
match_middle-cons [] rest x y ih = ih x
match_middle-cons (c ∷ q) rest x y ih =
    let (i, found, bound) = index_of_hit x (c ∷ q) y in
    let n = i + length (c ∷ q) in
    let e : drop n (x ++ ((c ∷ q) ++ y)) ≡ drop n (x ++ (c ∷ q)) ++ y =
      ap (drop n) (sym (append_assoc x (c ∷ q) y))
      ∙ drop-append_le n (x ++ (c ∷ q)) y (omega (arith, length-append {0} x (c ∷ q))) in
    rw (found, match_middle) (ap (match_middle rest) e ∙ ih (drop n (x ++ (c ∷ q))))

match_middle-weave :
    (segs : Segments) (z : Text) → match_middle (inner (parts segs)) (z ++ weave segs) ≡ true
unfolding match_middle
match_middle-weave [] z = refl
match_middle-weave ((x, q) ∷ []) z = refl
match_middle-weave ((x, q) ∷ (y, r) ∷ segs) z =
    ap (match_middle (q ∷ inner (r ∷ parts segs))) (sym (append_assoc z x _))
    ∙ match_middle-cons q (inner (r ∷ parts segs)) (z ++ x) (weave ((y, r) ∷ segs))
        (match_middle-weave ((y, r) ∷ segs))

match_parts-weave :
    (p x q : Text) (segs : Segments)
    → match_parts (p ++ (x ++ (q ++ weave segs))) (p ∷ q ∷ parts segs) ≡ true
unfolding match_parts
match_parts-weave p x q segs =
    let w = x ++ (q ++ weave segs) in
    let (t, e) = weave-last_part x q segs in
    let suffix : has_suffix (p ++ w) (last_part q (parts segs)) ≡ true =
      ap (λ u. has_suffix u (last_part q (parts segs)))
        (ap (λ u. p ++ u) e ∙ sym (append_assoc p t (last_part q (parts segs))))
      ∙ has_suffix-append (p ++ t) (last_part q (parts segs)) in
    let middle : match_middle (inner (q ∷ parts segs)) (drop (length p) (p ++ w)) ≡ true =
      ap (match_middle (inner (q ∷ parts segs))) (drop-length-append p w)
      ∙ match_middle-weave ((x, q) ∷ segs) [] in
    ground (arith, has_prefix-append p w, suffix, middle)

-- The matcher accepts every text that a pattern describes: the pattern's parts, free of stars, with
-- any text in the place of each star.
pub match_pattern-weave :
    (p : Text) (segs : Segments)
    → All StarFree (p ∷ parts segs)
    → match_pattern (p ++ weave segs) (join (star ∷ []) (p ∷ parts segs)) ≡ true
unfolding match_pattern contains
match_pattern-weave p [] free =
    let e : index_of (p ++ []) (star ∷ []) ≡ none = rw (append-nil p) free.0 in
    ground (arith, e, text_eq_refl (p ++ []))
match_pattern-weave p ((x, q) ∷ segs) free =
    let pattern = join (star ∷ []) (p ∷ q ∷ parts segs) in
    let e : index_of pattern (star ∷ []) ≡ some (length p) =
      index_of-IsFree-append star p (join (star ∷ []) (q ∷ parts segs)) free.0 in
    let m : match_parts (p ++ (x ++ (q ++ weave segs))) (split pattern (star ∷ [])) ≡ true =
      ap (match_parts (p ++ (x ++ (q ++ weave segs)))) (split-join star p (q ∷ parts segs) free)
      ∙ match_parts-weave p x q segs in
    ground (arith, e, m)
