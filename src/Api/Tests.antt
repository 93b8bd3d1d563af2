-- ===== src/Api/Tests.antt =====
-- internal/api: requests on which the theorems are run.

use tmidb_core.Base.{
  negsuc, none, ◌≡◌, refl, true, false, [], ◌∷◌, Option, none, some, Text, bytes, ℤ, pos,
}
use tmidb_core.Base.Strings.{digits_from, atoi, digits}
use tmidb_core.Api.{Ctx, Handler}
use tmidb_core.Api.Token.{TokenClaims, TokenRow}
use tmidb_core.Api.Session.{Session, Verify}
use tmidb_core.Api.Query.{Filter}

abbrev request_of : Text → Ctx
request_of page_size = record {
  request = record {
    authorization = bytes "Bearer t";
    page = bytes "2";
    page_size = page_size;
    auto_size = [];
    category = bytes "air";
  };
  position = 0;
  version_context = none;
  pagination_context = none;
  user_specified_pagination = false;
  auto_pagination_applied = false;
  user_id = none;
  org_id = none;
  username = none;
  user_role = none;
  token_categories = none;
  replies = [];
}

abbrev c : Ctx
c = request_of (bytes "50")

abbrev large : Ctx
large = request_of (bytes "100001")

-- A handler that sends nothing.
abbrev done : Handler
done d = (d, none)

abbrev claims : TokenClaims
claims = record {
  user_id = pos 1;
  org_id = pos 2;
  username = bytes "kim";
  role = bytes "viewer";
  token_type = [];
  categories = bytes "air" ∷ [];
  expires_at = pos 0;
}

abbrev hash : Text → Text
hash t = t

abbrev rows : Text → Option TokenRow
rows t = some (record { claims = claims; expires_at = none; is_active = true })

abbrev category_of : Ctx → Text
category_of d = d.request.category

abbrev verify : Verify
verify t permission category = some true

abbrev count : ℤ → Text → Option ℤ
count org category = some (pos 200000)

abbrev admin : Option Session
admin = some (record {
  authenticated = true;
  role = some (bytes "admin");
  user_id = some (bytes "1");
  org_id = none;
})

abbrev warm : Filter
warm = record { field = bytes "t"; op = bytes ">"; value = bytes "30" }

atoi_numbers :
    (atoi (bytes "012") ≡ some (pos 12))
    × (atoi (bytes "-7") ≡ some (negsuc 6))
    × (atoi (bytes "+") ≡ none)
unfolding atoi digits digits_from
atoi_numbers = (refl, refl, refl)
