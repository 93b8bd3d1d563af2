-- ===== src/Api/Paths.antt =====
-- internal/api/handlers/query_parser.go: `ParseMultiListenerPath`.
use mathlib.Core.List.{append-nil}
use tmidb_core.Base.{
  ◌≡◌, refl, ap, ◌∙◌, false, List, [], ◌∷◌, ◌++◌, some, Text, arith, bytes, ◌==◌, All, text_eq,
}
use tmidb_core.Base.Strings.{split_on}
use tmidb_core.Api.Query.{parse_multi_listener_path}

-- The text holds no slash.
abbrev pub NoSlash : Text → Type 0
NoSlash = All (λ c. (c == b'/') ≡ false)

-- Each of the texts behind a slash.
abbrev pub slashed : List Text → Text
slashed [] = []
slashed (p ∷ rest) = b'/' ∷ (p ++ slashed rest)

split_on-nil : (p : Text) → NoSlash p → split_on b'/' p ≡ p ∷ []
unfolding split_on
split_on-nil [] free = refl
split_on-nil (c ∷ p) free = rw (free.0, split_on-nil p free.1)

split_on-slash : (p u : Text) → NoSlash p → split_on b'/' (p ++ b'/' ∷ u) ≡ p ∷ split_on b'/' u
unfolding split_on
split_on-slash [] u free = refl
split_on-slash (c ∷ p) u free = rw (free.0, split_on-slash p u free.1)

split_on-slashed :
    (p : Text) (rest : List Text)
    → NoSlash p
    → All NoSlash rest
    → split_on b'/' (p ++ slashed rest) ≡ p ∷ rest
split_on-slashed p [] fp fr = ap (split_on b'/') (append-nil p) ∙ split_on-nil p fp
split_on-slashed p (q ∷ rest) fp fr =
    split_on-slash p (q ++ slashed rest) fp ∙ ap (◌∷◌ p) (split_on-slashed q rest fr.0 fr.1)

-- The path `/api/<version>/listener/` and the names of listeners, at least one, with slashes between
-- them, is parsed into those names, provided that none holds a slash.
pub parse_multi_listener_path-slashed :
    (version name : Text) (names : List Text)
    → NoSlash version
    → All NoSlash (name ∷ names)
    → parse_multi_listener_path (slashed (bytes "api" ∷ version ∷ bytes "listener" ∷ name ∷ names))
      ≡ some (name ∷ names)
unfolding parse_multi_listener_path text_eq
parse_multi_listener_path-slashed version name names fv fn =
    let parts : List Text = bytes "api" ∷ version ∷ bytes "listener" ∷ name ∷ names in
    let e : split_on b'/' (slashed parts) ≡ [] ∷ parts = split_on-slashed [] parts tt (
      (refl, (refl, (refl, tt))),
      (fv, ((refl, (refl, (refl, (refl, (refl, (refl, (refl, (refl, tt)))))))), fn)),
    ) in
    rw e (ground arith)
