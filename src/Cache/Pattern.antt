-- ===== src/Cache/Pattern.antt =====
-- internal/cache/memory_cache.go, the wildcard matcher of `DeletePattern` and the string
-- functions that it stands on. A text is its bytes; an index of -1 is `none`.
pub mod Search
pub mod Split
pub mod Weave
pub mod Overlap
pub mod Ordered
use mathlib.Core.Option
use tmidb_core.Base.{
  ℕ, zero, suc, ◌+◌, ◌-◌, Bool, true, false, not, ◌&&◌, List, [], ◌∷◌, Option, none, some, ltb, leb,
  if◌then◌else◌, length, take, drop, Text, bytes, text_eq, is_empty,
}

unfoldable pub has_prefix : Text → Text → Bool
has_prefix s prefix = leb (length prefix) (length s) && text_eq (take (length prefix) s) prefix

unfoldable pub has_suffix : Text → Text → Bool
has_suffix s suffix =
    leb (length suffix) (length s) && text_eq (drop (length s - length suffix) s) suffix

-- The loop of `indexOf`: the recursion is on `s[i:]`, and `i` is what `suc` adds up to. The loop's
-- bound `i <= len(s)-len(substr)` and its comparison are `has_prefix s[i:] substr`.
unfoldable pub index_of : Text → Text → Option ℕ
index_of [] substr = if has_prefix [] substr then some 0 else none
index_of (c ∷ s) substr =
    let rest = Option.map suc (index_of s substr) in
    if has_prefix (c ∷ s) substr then some 0 else rest

unfoldable pub contains : Text → Text → Bool
contains s substr = elim (index_of s substr) [ none ↦ false | some _ ↦ true ]

-- The loop of `split` on `s[start:]`. Each round consumes a separator, so `suc (length s)` rounds
-- are enough; with none left nothing more is appended.
unfoldable pub split_from : ℕ → Text → Text → List Text
split_from zero s sep = []
split_from (suc fuel) s sep = elim (index_of s sep) [
  | none ↦ s ∷ []
  | some p ↦ take p s ∷ split_from fuel (drop (p + length sep) s) sep
]

unfoldable pub split : Text → Text → List Text
unfolding split_from
split s sep = if is_empty sep then s ∷ [] else split_from (suc (length s)) s sep

abbrev pub star : ℕ
star = b'*'

-- `parts[len(parts)-1]` and `parts[1:len(parts)-1]` of `first ∷ rest`.
abbrev pub last_part : Text → List Text → Text
last_part first [] = first
last_part first (q ∷ rest) = last_part q rest

abbrev pub inner : List Text → List Text
inner [] = []
inner (q ∷ []) = []
inner (q ∷ r ∷ rest) = q ∷ inner (r ∷ rest)

-- The loop over the middle parts; the text is `str[currentPos:]`.
unfoldable pub match_middle : List Text → Text → Bool
match_middle [] s = true
match_middle (part ∷ parts) s = elim (is_empty part) [
  | true ↦ match_middle parts s
  | false ↦ elim (index_of s part) [
    | none ↦ false
    | some p ↦ match_middle parts (drop (p + length part) s)
  ]
]

unfoldable pub match_parts : Text → List Text → Bool
match_parts str [] = true
match_parts str (first ∷ rest) =
    if not (is_empty first) && not (has_prefix str first)
    then false
    else if ltb 1 (length (first ∷ rest))
        && (not (is_empty (last_part first rest)) && not (has_suffix str (last_part first rest)))
    then false
    else match_middle (inner rest) (drop (length first) str)

unfoldable pub match_pattern : Text → Text → Bool
match_pattern str pattern =
    if text_eq pattern (star ∷ [])
    then true
    else if not (contains pattern (star ∷ []))
    then text_eq str pattern
    else match_parts str (split pattern (star ∷ []))
