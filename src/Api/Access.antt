-- ===== src/Api/Access.antt =====
-- internal/api/middleware: what a request needs to pass, and what the handlers then find.
use mathlib.Core.List.{Memᴰ}
use tmidb_core.Base.{
  ℕ, ◌≡◌, ◌⊎◌, refl, sym, subst, ◌&&◌, true, false, List, [], ◌∷◌, Option, none, some, Text, arith,
  Bool-cases, inl, inr, ltb_int, pos, ℤ, bytes, is_empty, text_eq, text_eq_iff,
}
use tmidb_core.Base.Strings.{lower}
use tmidb_core.Api.{Ctx, Handler, HttpError, Code, answer}
use tmidb_core.Api.Version.{version, normalize_version}
use tmidb_core.Api.Token.{
  TokenClaims, get_token_claims, has_permission, allows, has_category_access, denial, store_claims,
}
use tmidb_core.Api.Session.{Session, admin_required, is_admin}

-- The request was answered with an error, and no further handler was run.
abbrev pub Refused : Ctx → Ctx × Option HttpError → Type 0
Refused c r = (status : ℕ) × (code : Code) × (r ≡ answer status code c)

-- Claims that are denied nothing have not expired, allow the permission, and allow the category of
-- the request if it has one.
pub denial-none :
    (permission : Text) (category_of : Ctx → Text) (now : ℤ) (claims : TokenClaims) (c : Ctx)
    → denial permission (some category_of) now claims c ≡ none
    → ((ltb_int (pos 0) claims.expires_at && ltb_int claims.expires_at now) ≡ false)
      × (has_permission claims permission ≡ true)
      × ((is_empty (category_of c) ≡ true) ⊎ (has_category_access claims (category_of c) ≡ true))
unfolding denial
denial-none permission category_of now claims c h = ground arith

pub allows-Memᴰ :
    (category : Text) (l : List Text)
    → allows category l ≡ true
    → Memᴰ category l ⊎ Memᴰ (bytes "*") l
unfolding allows
allows-Memᴰ category [] h = absurd (cc)
allows-Memᴰ category (a ∷ l) h = elim (Bool-cases (text_eq a category)) [
  | inl e ↦ inl (Memᴰ.head (sym ((text_eq_iff a category).0 e)))
  | inr e ↦ elim (Bool-cases (text_eq a (bytes "*"))) [
    | inl f ↦ inr (Memᴰ.head (sym ((text_eq_iff a (bytes "*")).0 f)))
    | inr f ↦ elim (allows-Memᴰ category l (ground (arith, e, f, h))) [
      | inl m ↦ inl (Memᴰ.tail m)
      | inr m ↦ inr (Memᴰ.tail m)
    ]
  ]
]

-- The claims that were stored are those that a handler gets back, without the kind of the token and
-- without its time of expiry.
pub get_token_claims-store_claims :
    (claims : TokenClaims) (c : Ctx)
    → get_token_claims (store_claims claims c)
      ≡ some (record claims { token_type = []; expires_at = pos 0 })
unfolding get_token_claims store_claims
get_token_claims-store_claims claims c = refl

-- `AdminRequired` lets exactly those sessions pass that `IsAdmin` accepts, and refuses the others.
pub admin_required_lem :
    (s : Option Session) (next : Handler) (c : Ctx)
    → ((is_admin s ≡ true) → admin_required s next c ≡ next c)
      × ((is_admin s ≡ false) → Refused c (admin_required s next c))
unfolding admin_required is_admin
admin_required_lem none next c = (λ h. cc, λ h. (401, Code.unauthorized, refl))
admin_required_lem (some s) next c = elim (Bool-cases s.authenticated) [
  | inl e ↦ (λ h. ground arith, λ h. (403, Code.admin_required, ground arith))
  | inr e ↦ (λ h. absurd (ground (arith, e, h)), λ h. (401, Code.unauthorized, rw e))
]

normalized_cases :
    (v w : Text)
    → normalize_version v ≡ version w
    → (w ≡ bytes "latest") ⊎ ((w ≡ bytes "all") ⊎ (w ≡ v))
unfolding normalize_version
normalized_cases v w h = ground arith

latest_normal : normalize_version (bytes "latest") ≡ version (bytes "latest")
unfolding normalize_version text_eq lower
latest_normal = refl

all_normal : normalize_version (bytes "all") ≡ version (bytes "all")
unfolding normalize_version text_eq lower
all_normal = refl

-- To normalise a version again changes nothing.
pub normalize_version_idem :
    (v w : Text) → normalize_version v ≡ version w → normalize_version w ≡ version w
normalize_version_idem v w h = elim (normalized_cases v w h) [
  | inl e ↦ rw e latest_normal
  | inr other ↦ elim other [
    | inl e ↦ rw e all_normal
    | inr e ↦ subst (λ u. normalize_version u ≡ version w) (sym e) h
  ]
]
