-- ===== src/Api/Token.antt =====
-- internal/api/middleware/token_auth.go: authentication by a token with claims. The hash and the
-- database are arguments.
use tmidb_core.Base.{
  ℕ, Bool, true, false, not, ◌&&◌, ◌||◌, List, [], ◌∷◌, Option, none, some, if◌then◌else◌, Text,
  bytes, text_eq, is_empty, ℤ, pos, ltb_int,
}
use tmidb_core.Base.Strings.{split_on, to_lower, is_nil}
use tmidb_core.Api.{
  Ctx, Handler, Code, answer, auth_token_missing, auth_format_invalid, auth_token_invalid,
  auth_token_expired, auth_category_denied, auth_permission_denied,
}

pub record TokenClaims : Type 0 where
  pub user_id : ℤ
  pub org_id : ℤ
  pub username : Text
  pub role : Text
  pub token_type : Text
  pub categories : List Text
  pub expires_at : ℤ

-- A row of the query of `validateToken`; `expires_at` is NULL if it is `none`.
pub record TokenRow : Type 0 where
  pub claims : TokenClaims
  pub expires_at : Option ℤ
  pub is_active : Bool

-- `GetTokenClaims` panics where a value is missing, by `none`.
unfoldable pub get_token_claims : Ctx → Option TokenClaims
get_token_claims c = elim c.user_id [
  | none ↦ none
  | some user ↦ elim c.org_id [
    | none ↦ none
    | some org ↦ elim c.username [
      | none ↦ none
      | some name ↦ elim c.user_role [
        | none ↦ none
        | some role ↦ elim c.token_categories [
          | none ↦ none
          | some cats ↦ some (record {
            user_id = user;
            org_id = org;
            username = name;
            role = role;
            token_type = [];
            categories = cats;
            expires_at = pos 0;
          })
        ]
      ]
    ]
  ]
]

-- `none` is an error: no such token, or one that is disabled.
unfoldable pub validate_token : (Text → Text) → (Text → Option TokenRow) → Text → Option TokenClaims
validate_token hash rows token = elim (rows (hash token)) [
  | none ↦ none
  | some row ↦
      if row.is_active
      then some
          (record (row.claims) { expires_at = elim row.expires_at [ none ↦ pos 0 | some t ↦ t ] })
      else none
]

unfoldable pub has_permission : TokenClaims → Text → Bool
has_permission claims permission =
    if text_eq permission (bytes "read")
    then text_eq claims.role (bytes "admin") || text_eq claims.role (bytes "viewer")
    else if text_eq permission (bytes "write")
    then text_eq claims.role (bytes "admin") || text_eq claims.role (bytes "writer")
    else if text_eq permission (bytes "admin")
    then text_eq claims.role (bytes "admin")
    else false

unfoldable pub allows : Text → List Text → Bool
allows category [] = false
allows category (a ∷ allowed) =
    let rest = allows category allowed in text_eq a category || (text_eq a (bytes "*") || rest)

unfoldable pub has_category_access : TokenClaims → Text → Bool
unfolding allows
has_category_access claims category =
    if text_eq claims.role (bytes "admin")
    then true
    else if is_nil claims.categories
    then true
    else allows category claims.categories

-- The token of `Bearer <token>`: two words, the first of them "bearer" in any case.
unfoldable pub bearer_token : Text → Option Text
bearer_token header = elim (split_on b' ' header) [
  | scheme ∷ (token ∷ []) ↦ if text_eq (to_lower scheme) (bytes "bearer") then some token else none
  | _ ↦ none
]

-- The checks of `TokenAuthMiddleware` on valid claims, in their order; `none` lets the request pass.
unfoldable pub denial : Text → Option (Ctx → Text) → ℤ → TokenClaims → Ctx → Option (ℕ × Code)
denial permission category_of now claims c =
    if ltb_int (pos 0) claims.expires_at && ltb_int claims.expires_at now
    then some (401, auth_token_expired)
    else if elim category_of [
      | none ↦ false
      | some f ↦ not (is_empty (f c)) && not (has_category_access claims (f c))
    ]
    then some (403, auth_category_denied)
    else if has_permission claims permission
    then none
    else some (403, auth_permission_denied)

unfoldable pub store_claims : TokenClaims → Ctx → Ctx
store_claims claims c = record c {
  user_id = some claims.user_id;
  org_id = some claims.org_id;
  username = some claims.username;
  user_role = some claims.role;
  token_categories = some claims.categories;
}

-- `now` is the time in seconds.
unfoldable pub token_auth_middleware :
    (Text → Text) → (Text → Option TokenRow) → Text → Option (Ctx → Text) → ℤ → Handler → Handler
token_auth_middleware hash rows permission category_of now next c =
    if is_empty c.request.authorization
    then answer 401 auth_token_missing c
    else elim (bearer_token c.request.authorization) [
      | none ↦ answer 401 auth_format_invalid c
      | some token ↦ elim (validate_token hash rows token) [
        | none ↦ answer 401 auth_token_invalid c
        | some claims ↦ elim (denial permission category_of now claims c) [
          | some (status, code) ↦ answer status code c
          | none ↦ next (store_claims claims c)
        ]
      ]
    ]
