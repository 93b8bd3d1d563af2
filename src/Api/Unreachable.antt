-- ===== src/Api/Unreachable.antt =====
-- internal/api/handlers/query_parser.go: which operators a parameter can get.

use mathlib.Core.List.{append_assoc}
use tmidb_core.Base.{
  ℕ, ◌≡◌, ◌≢◌, refl, sym, subst, ap, ◌∙◌, Bool, true, false, List, [], ◌∷◌, ◌++◌, none, some, Text,
  arith, Option-cases, inl, inr, bytes, length, length-append, text_eq, text_eq_refl, ◌||◌,
}
use tmidb_core.Api.Query.{Filter, last_split, operators, match_operators, parse_param}
use tmidb_core.Api.Filters.{last_split_lem, IsSplit, match_operators_lem}

-- A split at `!~` is one at `~` with one more character before it.
tilde-IsSplit :
    (s before behind : Text)
    → IsSplit (bytes "!~") s before behind
    → IsSplit (bytes "~") s (before ++ bytes "!") behind
tilde-IsSplit s before behind i = record {
  whole = i.whole ∙ sym (append_assoc before (bytes "!") (bytes "~" ++ behind));
  some_before = λ e. i.some_before (nil_of_append before e);
  some_behind = i.some_behind;
}
  where
    nil_of_append : (b : Text) → b ++ bytes "!" ≡ [] → b ≡ []
    nil_of_append [] e = refl
    nil_of_append (c ∷ b) e = absurd (cc)

tilde_first :
    (s before behind : Text)
    → last_split (bytes "!~") s ≡ some (before, behind)
    → last_split (bytes "~") s ≢ none
tilde_first s before behind h n =
    let i = ((last_split_lem (bytes "!~") s).0 before behind h).0 in
    (last_split_lem (bytes "~") s).1 n (before ++ bytes "!") behind
      (tilde-IsSplit s before behind i)

abbrev among : Text → List Text → Bool
among t [] = false
among t (u ∷ ts) = text_eq u t || among t ts

-- Where an operator has a split, it or one tried before it is the filter's.
first_found :
    (earlier later : List Text) (op s : Text) (f : Filter)
    → match_operators (earlier ++ op ∷ later) s ≡ some f
    → last_split op s ≢ none
    → among f.op (earlier ++ op ∷ []) ≡ true
unfolding match_operators
first_found [] later op s f h found = elim (Option-cases (last_split op s)) [
  | inl e ↦ absurd (found e)
  | inr (split, e) ↦
      let same : op ≡ f.op = ground (arith, e, h) in
      ground (arith, subst (λ t. text_eq op t ≡ true) same (text_eq_refl op))
]
first_found (o ∷ earlier) later op s f h found = elim (Option-cases (last_split o s)) [
  | inl e ↦ ground (arith, first_found earlier later op s f (ground (arith, e, h)) found)
  | inr (split, e) ↦
      let same : o ≡ f.op = ground (arith, e, h) in
      ground (arith, subst (λ t. text_eq o t ≡ true) same (text_eq_refl o))
]

abbrev up_to_like : List Text
up_to_like = bytes ">=" ∷ bytes "<=" ∷ bytes ">" ∷ bytes "<" ∷ bytes "!=" ∷ bytes "~" ∷ []

not_up_to_like : among (bytes "!~") up_to_like ≡ false
unfolding text_eq
not_up_to_like = refl

-- No parameter gets the operator `!~`, which stands behind `~` in the list: what it matches, `~`
-- matches first.
pub not_like_unreachable :
    (s : Text) (f : Filter) → match_operators operators s ≡ some f → f.op ≢ bytes "!~"
not_like_unreachable s f h e =
    let (earlier, later, whole, none_yet, (before, behind, split, field, value)) =
      match_operators_lem operators s f h in
    let split' : last_split (bytes "!~") s ≡ some (before, behind) =
      ap (λ t. last_split t s) (sym e) ∙ split in
    let tried =
      first_found (bytes ">=" ∷ bytes "<=" ∷ bytes ">" ∷ bytes "<" ∷ bytes "!=" ∷ [])
        (bytes "!~" ∷ bytes "!in" ∷ []) (bytes "~") s f h (tilde_first s before behind split') in
    let there : among (bytes "!~") up_to_like ≡ true =
      ap (λ t. among t up_to_like) (sym e) ∙ tried in
    cc (there, not_up_to_like)

not_an_operator : among (bytes "size>") operators ≡ false
unfolding text_eq
not_an_operator = refl

operator_found :
    (s : Text) (f : Filter) → match_operators operators s ≡ some f → among f.op operators ≡ true
operator_found s f h =
    let (earlier, later, whole, none_yet, rest) = match_operators_lem operators s f h in
    ap (among f.op) whole ∙ among-append f.op earlier later
  where
    among-append : (t : Text) (a b : List Text) → among t (a ++ t ∷ b) ≡ true
    among-append t [] b = ground (arith, text_eq_refl t)
    among-append t (u ∷ a) b = ground (arith, among-append t a b)

size-IsSplit :
    (key : Text) (d : ℕ) (value : Text)
    → IsSplit
        (bytes ">")
        ((key ++ bytes ".size>") ++ (d ∷ value))
        (key ++ bytes ".size")
        (d ∷ value)
size-IsSplit key d value = record {
  whole =
      append_assoc key (bytes ".size>") (d ∷ value)
      ∙ sym (append_assoc key (bytes ".size") (bytes ">" ++ (d ∷ value)));
  some_before = λ e. absurd (omega (arith, ap length e, length-append {0} key (bytes ".size")));
  some_behind = cc;
}

none_found_at :
    (earlier later : List Text) (op s : Text)
    → match_operators (earlier ++ op ∷ later) s ≡ none
    → last_split op s ≡ none
unfolding match_operators
none_found_at [] later op s h = ground arith
none_found_at (o ∷ earlier) later op s h = none_found_at earlier later op s (ground arith)

-- A key that ends in `.size>` never gets the operator `size>` with a value that is not empty: the
-- operator `>` is looked for in the key too, and found there first.
pub size_greater_unreachable :
    (key : Text) (d : ℕ) (value : Text)
    → (parse_param (key ++ bytes ".size>") (d ∷ value)).op ≢ bytes "size>"
unfolding parse_param
size_greater_unreachable key d value e =
    let s = (key ++ bytes ".size>") ++ (d ∷ value) in
    elim (Option-cases (match_operators operators s)) [
      | inl none_found ↦
          (last_split_lem (bytes ">") s).1
            (none_found_at (bytes ">=" ∷ bytes "<=" ∷ [])
              (bytes "<" ∷ bytes "!=" ∷ bytes "~" ∷ bytes "!~" ∷ bytes "!in" ∷ []) (bytes ">") s
              none_found)
            (key ++ bytes ".size") (d ∷ value) (size-IsSplit key d value)
      | inr (f, found) ↦
          let same : (parse_param (key ++ bytes ".size>") (d ∷ value)).op ≡ f.op =
            rw (found, parse_param) refl in
          let there : among (bytes "size>") operators ≡ true =
            ap (λ t. among t operators) (sym e ∙ same) ∙ operator_found s f found in
          cc (there, not_an_operator)
    ]
