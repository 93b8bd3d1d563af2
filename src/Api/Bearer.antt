-- ===== src/Api/Bearer.antt =====
-- internal/api/middleware/token_auth.go: the form of the header that bears a token.

use tmidb_core.Base.{
  ℕ, ◌≡◌, ◌⊎◌, refl, sym, ap, true, false, List, [], ◌∷◌, ◌++◌, map, Option, none, some, Text,
  arith, Bool-cases, inl, inr, bytes, text_eq, ◌==◌, All, if◌then◌else◌, text_eq_iff,
}
use tmidb_core.Base.Strings.{split_on, lower, cons_head}
use tmidb_core.Api.Token.{bearer_token}

-- A text without spaces.
abbrev pub Plain : Text → Type 0
Plain = All (λ d. (d == 32) ≡ false)

split_on-Plain : (t : Text) → Plain t → split_on 32 t ≡ t ∷ []
unfolding split_on
split_on-Plain [] p = refl
split_on-Plain (d ∷ t) p = rw (p.0, split_on) (rw (split_on-Plain t p.1) refl)

split_on-two : (s t : Text) → Plain s → Plain t → split_on 32 (s ++ 32 ∷ t) ≡ s ∷ t ∷ []
unfolding split_on
split_on-two [] t p q = rw (split_on-Plain t q) refl
split_on-two (d ∷ s) t p q = rw (p.0, split_on) (rw (split_on-two s t p.1 q) refl)

split_on-nonempty : (s : Text) → split_on 32 s ≡ [] → true ≡ false
unfolding split_on
split_on-nonempty [] h = absurd (cc)
split_on-nonempty (d ∷ s) h = absurd (ground arith)

-- The words of a text that has one space.
record TwoWords (h s t : Text) : Type 0 where
  together : h ≡ s ++ 32 ∷ t
  first : Plain s
  second : Plain t

cons_head-one :
    (d : ℕ) (ps : List Text) (t : Text)
    → cons_head d ps ≡ t ∷ []
    → (ps ≡ []) ⊎ ((u : Text) × (ps ≡ u ∷ []) × (t ≡ d ∷ u))
cons_head-one d [] t h = inl refl
cons_head-one d (p ∷ []) t h = inr (p, refl, ground arith)
cons_head-one d (p ∷ q ∷ ps) t h = absurd (ground arith)

one_word : (h t : Text) → split_on 32 h ≡ t ∷ [] → (h ≡ t) × Plain t
unfolding split_on
one_word [] t e = let is : [] ≡ t = ground arith in rw (sym is) (refl, tt)
one_word (d ∷ h) t e = elim (Bool-cases (d == 32)) [
  | inl c ↦ absurd (
      let two = rw c at e in
      let empty : split_on 32 h ≡ [] = ground arith in let no = split_on-nonempty h empty in cc)
  | inr c ↦ elim (cons_head-one d (split_on 32 h) t (rw c at e)) [
    | inl empty ↦ absurd (let no = split_on-nonempty h empty in cc)
    | inr (u, one, is) ↦ let rest = one_word h u one in rw is (ap (◌∷◌ d) rest.0, (c, rest.1))
  ]
]

cons_head-two :
    (d : ℕ) (ps : List Text) (s t : Text)
    → cons_head d ps ≡ s ∷ t ∷ []
    → (u : Text) × (ps ≡ u ∷ t ∷ []) × (s ≡ d ∷ u)
cons_head-two d [] s t h = absurd (ground arith)
cons_head-two d (p ∷ ps) s t h = (p, ground arith, ground arith)

two_words : (h s t : Text) → split_on 32 h ≡ s ∷ t ∷ [] → TwoWords h s t
unfolding split_on
two_words [] s t e = absurd (ground arith)
two_words (d ∷ h) s t e = elim (Bool-cases (d == 32)) [
  | inl c ↦
      let split = rw c at e in
      let here : s ≡ [] = ground arith in
      let rest = one_word h t (ground arith) in
      let space : d ≡ 32 = ground arith in
      rw here (record { together = rw space (ap (◌∷◌ 32) rest.0); first = tt; second = rest.1 })
  | inr c ↦
      let split = cons_head-two d (split_on 32 h) s t (rw c at e) in
      let rest = two_words h split.0 t split.1 in
      rw (split.2) (record {
        together = ap (◌∷◌ d) rest.together;
        first = (c, rest.first);
        second = rest.second;
      })
]

-- The header `Bearer <token>`: two words with one space between them, the first in any case.
pub record Bears (header token : Text) : Type 0 where
  pub scheme : Text
  pub words : header ≡ scheme ++ 32 ∷ token
  pub plain : Plain scheme × Plain token
  pub bearer : map lower scheme ≡ bytes "bearer"

scheme_of : List Text → Option Text
scheme_of (scheme ∷ (token ∷ [])) =
    if text_eq (map lower scheme) (bytes "bearer") then some token else none
scheme_of _ = none

bearer_token-scheme_of : (header : Text) → bearer_token header ≡ scheme_of (split_on 32 header)
unfolding bearer_token scheme_of
bearer_token-scheme_of header = ground arith

scheme_of-two :
    (ws : List Text) (token : Text)
    → scheme_of ws ≡ some token
    → (scheme : Text) × (ws ≡ scheme ∷ token ∷ []) × (map lower scheme ≡ bytes "bearer")
unfolding scheme_of
scheme_of-two [] token h = absurd (cc)
scheme_of-two (s ∷ []) token h = absurd (cc)
scheme_of-two (s ∷ t ∷ u ∷ ws) token h = absurd (cc)
scheme_of-two (s ∷ t ∷ []) token h = elim (Bool-cases (text_eq (map lower s) (bytes "bearer"))) [
  | inl e ↦
      let found : some t ≡ some token = rw e at h in
      let is : t ≡ token = cc in (s, rw is refl, (text_eq_iff (map lower s) (bytes "bearer")).0 e)
  | inr e ↦ absurd (let found : none ≡ some token = rw e at h in cc)
]

pub bearer_token-Bears :
    (header token : Text) → bearer_token header ≡ some token → Bears header token
bearer_token-Bears header token h =
    let found =
      scheme_of-two (split_on 32 header) token (rw (bearer_token-scheme_of header) at h) in
    let two = two_words header found.0 token found.1 in
    record {
      scheme = found.0;
      words = two.together;
      plain = (two.first, two.second);
      bearer = found.2;
    }

pub Bears-bearer_token :
    (header token : Text) → Bears header token → bearer_token header ≡ some token
unfolding scheme_of
Bears-bearer_token header token b = rw (bearer_token-scheme_of header) (
    rw (b.words) (
      rw (split_on-two b.scheme token b.plain.0 b.plain.1)
        (rw ((text_eq_iff (map lower b.scheme) (bytes "bearer")).1 b.bearer) refl)))
