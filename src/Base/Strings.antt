-- ===== src/Base/Strings.antt =====
-- What the program uses of Go's packages `strings` and `strconv`, on bytes.
use Prim.Native.Nat.{ℕ, zero, suc, ◌+◌, ◌*◌, ◌-◌, ◌^◌}
use mathlib.Core.Bool.{Bool, true, false, ◌&&◌, ◌||◌}
use mathlib.Core.Option
use mathlib.Core.Option.{Option, none, some}
use mathlib.Core.List.{List, [], ◌∷◌, map}
use tmidb_core.Base.Tests.{leb, ◌==◌, if◌then◌else◌}
use tmidb_core.Base.Int.{ℤ, pos, negsuc}
use tmidb_core.Base.Bytes.{Text}

-- `strings.TrimPrefix` where the prefix is there; `none` where `strings.HasPrefix` is false.
unfoldable pub strip_prefix : Text → Text → Option Text
strip_prefix [] s = some s
strip_prefix (c ∷ p) [] = none
strip_prefix (c ∷ p) (d ∷ s) = let rest = strip_prefix p s in if c == d then rest else none

abbrev pub is_some {ℓ} : {A : Type ℓ} → Option A → Bool
is_some none = false
is_some (some a) = true

abbrev pub is_nil {ℓ} : {A : Type ℓ} → List A → Bool
is_nil [] = true
is_nil (x ∷ xs) = false

-- The text without its suffix; `none` where `strings.HasSuffix` is false.
unfoldable pub strip_suffix : Text → Text → Option Text
strip_suffix p [] = if is_nil p then some [] else none
strip_suffix p (c ∷ s) =
    let rest = Option.map (◌∷◌ c) (strip_suffix p s) in
    elim (strip_prefix p (c ∷ s)) [ some [] ↦ some [] | _ ↦ rest ]

-- `strings.Contains`.
unfoldable pub includes : Text → Text → Bool
includes [] sub = is_nil sub
includes (c ∷ s) sub = let rest = includes s sub in is_some (strip_prefix sub (c ∷ s)) || rest

abbrev pub cons_head : ℕ → List Text → List Text
cons_head c [] = (c ∷ []) ∷ []
cons_head c (p ∷ parts) = (c ∷ p) ∷ parts

-- `strings.Split` at one character.
unfoldable pub split_on : ℕ → Text → List Text
split_on a [] = [] ∷ []
split_on a (c ∷ s) = let rest = split_on a s in if c == a then [] ∷ rest else cons_head c rest

-- `strings.ToLower`, as far as a comparison with an ASCII text can tell.
unfoldable pub lower : ℕ → ℕ
lower c = if leb b'A' c && leb c b'Z' then c + 32 else c

abbrev pub to_lower : Text → Text
to_lower = map lower

abbrev pub is_digit : ℕ → Bool
is_digit c = leb b'0' c && leb c b'9'

-- The value of a text of digits, read on from `n`.
unfoldable pub digits_from : ℕ → Text → Option ℕ
digits_from n [] = some n
digits_from n (c ∷ s) =
    let rest = digits_from (n * 10 + (c - b'0')) s in if is_digit c then rest else none

unfoldable pub digits : Text → Option ℕ
unfolding digits_from
digits [] = none
digits (c ∷ s) = digits_from 0 (c ∷ s)

abbrev negate : ℕ → ℤ
negate zero = pos 0
negate (suc n) = negsuc n

abbrev at_most : ℕ → (ℕ → ℤ) → Option ℕ → Option ℤ
at_most bound f none = none
at_most bound f (some n) = if leb n bound then some (f n) else none

-- `strconv.Atoi`: an optional sign and digits, within the range of an int64; `none` is an error.
unfoldable pub atoi : Text → Option ℤ
unfolding digits
atoi [] = none
atoi (c ∷ s) =
    if c == b'-'
    then at_most (2 ^ 63) negate (digits s)
    else if c == b'+'
    then at_most (2 ^ 63 - 1) pos (digits s)
    else at_most (2 ^ 63 - 1) pos (digits (c ∷ s))

-- `strings.TrimSpace`, on the ASCII white space.
abbrev is_space : ℕ → Bool
is_space c = leb 9 c && leb c 13 || c == 32

unfoldable pub trim_left : Text → Text
trim_left [] = []
trim_left (c ∷ s) = let rest = trim_left s in if is_space c then rest else c ∷ s

unfoldable pub trim_right : Text → Text
trim_right [] = []
trim_right (c ∷ s) = let rest = trim_right s in if is_nil rest && is_space c then [] else c ∷ rest

unfoldable pub trim_space : Text → Text
unfolding trim_left trim_right
trim_space s = trim_right (trim_left s)
