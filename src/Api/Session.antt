-- ===== src/Api/Session.antt =====
-- internal/api/middleware/auth.go: authentication by a token that the database verifies, and by a
-- session. The session store answers with a session, or `none` for an error.
use tmidb_core.Base.{Bool, false, Option, none, some, if◌then◌else◌, Text, bytes, text_eq, is_empty}
use tmidb_core.Base.Strings.{strip_prefix}
use tmidb_core.Api.{
  Ctx, Handler, answer, header_required, bearer_required, permission_denied, unauthorized,
  redirect_login, Code,
}

-- What the database function `verify_token(hash, permission, category)` answers; `none` is an error.
-- A login asks with no category.
abbrev pub Verify : Type 0
Verify = Text → Text → Option Text → Option Bool

abbrev pub passes : Option Bool → Bool
passes none = false
passes (some b) = b

unfoldable pub token_auth_required :
    (Text → Text) → Verify → Text → Option (Ctx → Text) → Handler → Handler
token_auth_required hash verify permission category_of next c =
    if is_empty c.request.authorization
    then answer 401 header_required c
    else elim (strip_prefix (bytes "Bearer ") c.request.authorization) [
      | none ↦ answer 401 bearer_required c
      | some token ↦
          if passes (
            verify (hash token) permission
              (some (elim category_of [ none ↦ bytes "" | some f ↦ f c ])))
          then next c
          else answer 403 permission_denied c
    ]

-- Whether the token is an administrator's, with the query's error.
unfoldable pub verify_token_for_login : (Text → Text) → Verify → Text → Option Bool
verify_token_for_login hash verify token = verify (hash token) (bytes "admin") none

pub record Session : Type 0 where
  pub authenticated : Bool
  pub role : Option Text
  pub user_id : Option Text
  pub org_id : Option Text

unfoldable pub auth_required : Option Session → Handler → Handler
auth_required none next c = answer 302 redirect_login c
auth_required (some s) next c = if s.authenticated then next c else answer 302 redirect_login c

abbrev role_is : Text → Option Text → Bool
role_is r none = false
role_is r (some role) = text_eq role r

unfoldable pub admin_required : Option Session → Handler → Handler
admin_required none next c = answer 401 unauthorized c
admin_required (some s) next c =
    if s.authenticated
    then (if role_is (bytes "admin") s.role then next c else answer 403 Code.admin_required c)
    else answer 401 unauthorized c

-- The getters' errors are `none`.
unfoldable pub get_user_id : Option Session → Option Text
get_user_id none = none
get_user_id (some s) = if s.authenticated then s.user_id else none

unfoldable pub get_user_role : Option Session → Option Text
get_user_role none = none
get_user_role (some s) = if s.authenticated then s.role else none

unfoldable pub is_authenticated : Option Session → Bool
is_authenticated none = false
is_authenticated (some s) = s.authenticated

unfoldable pub is_admin : Option Session → Bool
unfolding get_user_role
is_admin s = role_is (bytes "admin") (get_user_role s)

-- `GetOrgID` asks for no authentication.
unfoldable pub get_org_id : Option Session → Option Text
get_org_id none = none
get_org_id (some s) = s.org_id
