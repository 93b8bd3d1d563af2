-- ===== src/Cache/Pattern/Overlap.antt =====
-- internal/cache/memory_cache.go: what `matchPattern` accepts for a pattern with one star.
use mathlib.Core.List.{append-nil}
use tmidb_core.Base.{
  ◌≡◌, ◌≢◌, refl, sym, ap, ◌∙◌, true, ◌&&◌, [], ◌∷◌, ◌++◌, some, arith, length, drop, length-append,
  Text, text_eq, text_eq_iff, text_eq_ne, subst, false, Bool-cases, inl, inr, ◌↔◌,
}
use tmidb_core.Cache.Pattern.{
  has_prefix, has_suffix, index_of, contains, split, star, match_middle, match_parts, match_pattern,
}
use tmidb_core.Cache.Pattern.Search.{has_prefix-append, has_suffix-append, has_prefix_split}
use tmidb_core.Cache.Pattern.Split.{index_of_single, split-join, index_of-IsFree-append}
use tmidb_core.Cache.Pattern.Weave.{StarFree}

has_prefix-nil : (s : Text) → has_prefix s [] ≡ true
unfolding has_prefix text_eq
has_prefix-nil s = ground arith

has_suffix-nil : (s : Text) → has_suffix s [] ≡ true
has_suffix-nil s = ap (λ t. has_suffix t []) (sym (append-nil s)) ∙ has_suffix-append s []

has_prefix_self : (s : Text) → has_prefix s s ≡ true
has_prefix_self s = ap (λ t. has_prefix t s) (sym (append-nil s)) ∙ has_prefix-append s []

nil_free : StarFree []
unfolding index_of has_prefix
nil_free = refl

match_parts_two : (s p q : Text) → match_parts s (p ∷ q ∷ []) ≡ (has_prefix s p && has_suffix s q)
unfolding match_parts match_middle
match_parts_two s p q = ground (arith, has_prefix-nil s, has_suffix-nil s)

bare_star : (s p q : Text) → p ++ star ∷ q ≡ star ∷ [] → (has_prefix s p && has_suffix s q) ≡ true
bare_star s [] [] e = ground (arith, has_prefix-nil s, has_suffix-nil s)
bare_star s [] (c ∷ q) e = absurd (omega (arith, ap length e))
bare_star s (c ∷ p) q e = absurd (omega (arith, ap length e, length-append {0} p (star ∷ q)))

-- With one star the matcher tests for the prefix and for the suffix, each by itself.
pub match_pattern_one_star :
    (s p q : Text)
    → StarFree p
    → StarFree q
    → match_pattern s (p ++ star ∷ q) ≡ (has_prefix s p && has_suffix s q)
unfolding match_pattern contains
match_pattern_one_star s p q fp fq =
    let pattern = p ++ star ∷ q in
    let found : index_of pattern (star ∷ []) ≡ some (length p) =
      index_of-IsFree-append star p q fp in
    let cut : split pattern (star ∷ []) ≡ p ∷ q ∷ [] =
      ap (λ t. split (p ++ star ∷ t) (star ∷ [])) (sym (append-nil q))
      ∙ split-join star p (q ∷ []) (fp, (fq, tt)) in
    let two : match_parts s (split pattern (star ∷ [])) ≡ (has_prefix s p && has_suffix s q) =
      ap (match_parts s) cut ∙ match_parts_two s p q in
    elim (Bool-cases (text_eq pattern (star ∷ []))) [
      | inl e ↦ rw (e, match_pattern) (sym (bare_star s p q ((text_eq_iff _ _).0 e)))
      | inr e ↦ ground (arith, found, two)
    ]

-- A pattern that ends in its only star selects exactly the texts that begin with what stands before.
pub match_pattern_prefix :
    (s p : Text)
    → StarFree p
    → (match_pattern s (p ++ star ∷ []) ≡ true) ↔ ((t : Text) × (s ≡ p ++ t))
match_pattern_prefix s p free =
    let e = match_pattern_one_star s p [] free nil_free in
    (
      λ h. (drop (length p) s, has_prefix_split s p (ground (arith, e, h))),
      λ (t, d).
          ap (λ u. match_pattern u (p ++ star ∷ [])) d
          ∙ (match_pattern_one_star (p ++ t) p [] free nil_free
              ∙ ground (arith, has_prefix-append p t, has_suffix-nil (p ++ t))),
    )

-- The prefix and the suffix may overlap in the text: `w*w` selects `w`, which no text in the place
-- of the star gives.
pub match_pattern_overlap :
    (w : Text)
    → StarFree w
    → w ≢ []
    → (match_pattern w (w ++ star ∷ w) ≡ true) × ((x : Text) → w ≢ w ++ (x ++ w))
match_pattern_overlap [] free h = absurd (h refl)
match_pattern_overlap (c ∷ w) free h = (
  match_pattern_one_star (c ∷ w) (c ∷ w) (c ∷ w) free free
      ∙ ground (arith, has_prefix_self (c ∷ w), has_suffix-append [] (c ∷ w)),
  λ x e. absurd (
      omega (
        arith,
        ap length e,
        length-append {0} (c ∷ w) (x ++ (c ∷ w)),
        length-append {0} x (c ∷ w),
      )),
)

pub match_pattern-has_prefix :
    (s p : Text) → StarFree p → match_pattern s (p ++ star ∷ []) ≡ has_prefix s p
match_pattern-has_prefix s p free =
    match_pattern_one_star s p [] free nil_free ∙ ground (arith, has_suffix-nil s)

not_star : (p : Text) → StarFree p → text_eq p (star ∷ []) ≡ false
unfolding index_of has_prefix text_eq
not_star p free =
    text_eq_ne p (star ∷ [])
      (λ e. let clash : StarFree (star ∷ []) = subst StarFree e free in absurd (cc))

-- A pattern without a star selects itself alone.
pub match_pattern_exact : (s p : Text) → StarFree p → match_pattern s p ≡ text_eq s p
unfolding match_pattern contains
match_pattern_exact s p free = ground (arith, not_star p free, free)

pub append-StarFree : (p q : Text) → StarFree p → StarFree q → StarFree (p ++ q)
append-StarFree [] q fp fq = fq
append-StarFree (c ∷ p) q fp fq =
    ground (arith, index_of_single star c p, index_of_single star c (p ++ q), append-StarFree p q)
