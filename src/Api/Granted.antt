-- ===== src/Api/Granted.antt =====
-- internal/api/middleware/token_auth.go: which requests TokenAuthMiddleware lets pass, by a
-- description of its own, and what the handlers then find.

use tmidb_core.Base.{Bool, ◌≡◌, true, false, Option, none, some, Text, pos, ℤ}
use tmidb_core.Api.{Ctx}
use tmidb_core.Api.Bearer.{Bears}
use tmidb_core.Api.Token.{TokenClaims, TokenRow}
use tmidb_core.Api.Claims.{Permits, Lasts, ReachesOf, category_denied}

-- The request's token stands in the table, is active, lasts, and gives the permission and the
-- category that the route asks for.
pub record Grants (hash : Text → Text) (rows : Text → Option TokenRow) (permission : Text)
    (category_of : Option (Ctx → Text)) (now : ℤ) (c : Ctx) (row : TokenRow) : Type 0 where
  pub token : Text
  pub bears : Bears c.request.authorization token
  pub known : rows (hash token) ≡ some row
  pub active : row.is_active ≡ true
  pub lasts : Lasts now row.expires_at
  pub permits : Permits row.claims.role permission
  pub reaches : ReachesOf category_of row.claims c

-- The context with the claims of a row.
abbrev pub with_claims : TokenRow → Ctx → Ctx
with_claims row c = record c {
  user_id = some row.claims.user_id;
  org_id = some row.claims.org_id;
  username = some row.claims.username;
  user_role = some row.claims.role;
  token_categories = some row.claims.categories;
}

-- What `validateToken` makes of a row that is active.
abbrev expiring : TokenRow → TokenClaims
expiring row = record (row.claims) {
  expires_at = elim row.expires_at [ none ↦ pos 0 | some t ↦ t ];
}

denied_by : Option (Ctx → Text) → TokenClaims → Ctx → Bool
denied_by none claims c = false
denied_by (some category_of) claims c = category_denied claims (category_of c)
