-- ===== src/Api/Claims.antt =====
-- internal/api/middleware/token_auth.go: what claims permit and reach, and for how long, by a
-- description of its own.
use mathlib.Core.List.{Memᴰ}
use tmidb_core.Base.Strings.{is_nil}
use tmidb_core.Base.{
  Bool, ◌≡◌, ◌⊎◌, refl, sym, ◌&&◌, true, false, not, List, [], ◌∷◌, Option, none, some, Text, arith,
  Bool-cases, inl, inr, ltb_int, leb_int, pos, ℤ, bytes, is_empty, text_eq, text_eq_iff,
}
use tmidb_core.Api.{Ctx}
use tmidb_core.Api.Access.{allows-Memᴰ}
use tmidb_core.Api.Token.{TokenClaims, has_permission, allows, has_category_access}

-- Which role may do what.
pub data Permits : Text → Text → Type 0 where
  admin :
      (permission : Text)
      → Memᴰ permission (bytes "read" ∷ bytes "write" ∷ bytes "admin" ∷ [])
      → Permits (bytes "admin") permission
  viewer : Permits (bytes "viewer") (bytes "read")
  writer : Permits (bytes "writer") (bytes "write")

-- Which categories claims reach: all for an admin, and for claims without a list of categories.
pub data Reaches (claims : TokenClaims) (category : Text) : Type 0 where
  no_category : category ≡ [] → Reaches claims category
  as_admin : claims.role ≡ bytes "admin" → Reaches claims category
  unrestricted : claims.categories ≡ [] → Reaches claims category
  listed : Memᴰ category claims.categories → Reaches claims category
  wildcard : Memᴰ (bytes "*") claims.categories → Reaches claims category

-- A time of expiry that has not passed; none, and one that is not above 0, never passes.
pub data Lasts (now : ℤ) : Option ℤ → Type 0 where
  for_ever : Lasts now none
  unset : (t : ℤ) → leb_int t (pos 0) ≡ true → Lasts now (some t)
  later : (t : ℤ) → leb_int now t ≡ true → Lasts now (some t)

abbrev pub ReachesOf : Option (Ctx → Text) → TokenClaims → Ctx → Type 0
ReachesOf none claims c = Unit
ReachesOf (some category_of) claims c = Reaches claims (category_of c)

eq_text : (s t : Text) → text_eq s t ≡ true → s ≡ t
eq_text s t h = (text_eq_iff s t).0 h

pub has_permission-Permits :
    (claims : TokenClaims) (permission : Text)
    → has_permission claims permission ≡ true
    → Permits claims.role permission
unfolding has_permission
has_permission-Permits claims permission h = elim (Bool-cases (text_eq permission (bytes "read"))) [
  | inl r ↦ elim (Bool-cases (text_eq claims.role (bytes "admin"))) [
    | inl a ↦
        rw (eq_text claims.role (bytes "admin") a)
          (admin permission (Memᴰ.head (eq_text permission (bytes "read") r)))
    | inr a ↦
        let v : text_eq claims.role (bytes "viewer") ≡ true = ground arith in
        rw (eq_text claims.role (bytes "viewer") v)
          (rw (eq_text permission (bytes "read") r) viewer)
  ]
  | inr r ↦ elim (Bool-cases (text_eq permission (bytes "write"))) [
    | inl w ↦ elim (Bool-cases (text_eq claims.role (bytes "admin"))) [
      | inl a ↦
          rw (eq_text claims.role (bytes "admin") a)
            (admin permission (Memᴰ.tail (Memᴰ.head (eq_text permission (bytes "write") w))))
      | inr a ↦
          let v : text_eq claims.role (bytes "writer") ≡ true = ground arith in
          rw (eq_text claims.role (bytes "writer") v)
            (rw (eq_text permission (bytes "write") w) writer)
    ]
    | inr w ↦
        let p : text_eq permission (bytes "admin") ≡ true = ground arith in
        let a : text_eq claims.role (bytes "admin") ≡ true = ground arith in
        rw (eq_text claims.role (bytes "admin") a) (
          admin permission
            (Memᴰ.tail (Memᴰ.tail (Memᴰ.head (eq_text permission (bytes "admin") p)))))
  ]
]

pub Permits-has_permission :
    (claims : TokenClaims) (role permission : Text)
    → claims.role ≡ role
    → Permits role permission
    → has_permission claims permission ≡ true
unfolding has_permission text_eq
Permits-has_permission claims role permission e (admin p (Memᴰ.head h)) = rw h (rw e refl)
Permits-has_permission claims role permission e (admin p (Memᴰ.tail (Memᴰ.head h))) =
    rw h (rw e refl)
Permits-has_permission claims role permission e (admin p (Memᴰ.tail (Memᴰ.tail (Memᴰ.head h)))) =
    rw h (rw e refl)
Permits-has_permission claims role permission e (admin p (Memᴰ.tail (Memᴰ.tail (Memᴰ.tail h)))) =
    elim h [ ]
Permits-has_permission claims role permission e viewer = rw e refl
Permits-has_permission claims role permission e writer = rw e refl

Memᴰ-allows :
    (category : Text) (l : List Text)
    → Memᴰ category l ⊎ Memᴰ (bytes "*") l
    → allows category l ≡ true
unfolding allows
Memᴰ-allows category [] (inl h) = elim h [ ]
Memᴰ-allows category [] (inr h) = elim h [ ]
Memᴰ-allows category (a ∷ l) (inl (Memᴰ.head e)) =
    let here = (text_eq_iff a category).1 (sym e) in ground (arith, here)
Memᴰ-allows category (a ∷ l) (inl (Memᴰ.tail h)) =
    let rest = Memᴰ-allows category l (inl h) in ground (arith, rest)
Memᴰ-allows category (a ∷ l) (inr (Memᴰ.head e)) =
    let here = (text_eq_iff a (bytes "*")).1 (sym e) in ground (arith, here)
Memᴰ-allows category (a ∷ l) (inr (Memᴰ.tail h)) =
    let rest = Memᴰ-allows category l (inr h) in ground (arith, rest)

nil_of_is_empty : (t : Text) → is_empty t ≡ true → t ≡ []
nil_of_is_empty [] h = refl
nil_of_is_empty (d ∷ t) h = absurd (cc)

nil_of_is_nil : (l : List Text) → is_nil l ≡ true → l ≡ []
nil_of_is_nil [] h = refl
nil_of_is_nil (d ∷ t) h = absurd (cc)

-- Whether the claims are denied the category of a request.
abbrev pub category_denied : TokenClaims → Text → Bool
category_denied claims category =
    not (is_empty category) && not (has_category_access claims category)

pub allowed-Reaches :
    (claims : TokenClaims) (category : Text)
    → category_denied claims category ≡ false
    → Reaches claims category
unfolding has_category_access
allowed-Reaches claims category h = elim (Bool-cases (is_empty category)) [
  | inl e ↦ no_category (nil_of_is_empty category e)
  | inr e ↦ elim (Bool-cases (text_eq claims.role (bytes "admin"))) [
    | inl a ↦ as_admin (eq_text claims.role (bytes "admin") a)
    | inr a ↦ elim (Bool-cases (is_nil claims.categories)) [
      | inl n ↦ unrestricted (nil_of_is_nil claims.categories n)
      | inr n ↦
          let some_one : allows category claims.categories ≡ true = ground arith in
          elim (allows-Memᴰ category claims.categories some_one) [
            | inl m ↦ listed m
            | inr m ↦ wildcard m
          ]
    ]
  ]
]

pub Reaches-allowed :
    (claims : TokenClaims) (category : Text)
    → Reaches claims category
    → category_denied claims category ≡ false
unfolding has_category_access text_eq
Reaches-allowed claims category (no_category e) = rw e refl
Reaches-allowed claims category (as_admin e) = rw e (ground arith)
Reaches-allowed claims category (unrestricted e) = rw e (ground arith)
Reaches-allowed claims category (listed m) =
    let found = Memᴰ-allows category claims.categories (inl m) in ground (arith, found)
Reaches-allowed claims category (wildcard m) =
    let found = Memᴰ-allows category claims.categories (inr m) in ground (arith, found)

abbrev pub expired : ℤ → ℤ → Bool
expired now t = ltb_int (pos 0) t && ltb_int t now

abbrev pub or_never : Option ℤ → ℤ
or_never none = pos 0
or_never (some t) = t

pub fresh-Lasts : (now : ℤ) (o : Option ℤ) → expired now (or_never o) ≡ false → Lasts now o
fresh-Lasts now none h = for_ever
fresh-Lasts now (some t) h = elim (Bool-cases (leb_int t (pos 0))) [
  | inl e ↦ unset t e
  | inr e ↦ later t (ground arith)
]

pub Lasts-fresh : (now : ℤ) (o : Option ℤ) → Lasts now o → expired now (or_never o) ≡ false
Lasts-fresh now o for_ever = ground arith
Lasts-fresh now o (unset t e) = ground arith
Lasts-fresh now o (later t e) = ground arith
