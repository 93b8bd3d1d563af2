-- ===== src/Api.antt =====
-- internal/api: the request context that the middleware and the handlers share. What a call of
-- `c.Get`, `c.Query` or `c.Params` answers is a field of the request, empty if it is missing.
pub mod Version
pub mod Pagination
pub mod Token
pub mod Session
pub mod Access
pub mod Paged
pub mod Bearer
pub mod Claims
pub mod Granted
pub mod Chain
pub mod Query
pub mod Filters
pub mod Unreachable
pub mod Paths
mod Tests
use tmidb_core.Base.{ℕ, Bool, List, Option, none, some, ◌∷◌, Text, ℤ}

pub record Request : Type 0 where
  pub authorization : Text
  pub page : Text
  pub page_size : Text
  pub auto_size : Text
  pub category : Text

pub record VersionContext : Type 0 where
  pub requested_version : Text
  pub target_versions : List Text
  pub is_multi_version : Bool

pub record PaginationContext : Type 0 where
  pub page : ℤ
  pub page_size : ℤ
  pub auto_pagination : Bool
  pub max_page_size : ℤ

-- The codes of the JSON answers that the middleware sends itself.
pub data Code : Type 0 where
  version_unsupported invalid_version pagination_size_exceeded : Code
  auth_token_missing auth_format_invalid auth_token_invalid auth_token_expired : Code
  auth_category_denied auth_permission_denied : Code
  header_required bearer_required permission_denied : Code
  unauthorized admin_required redirect_login : Code

pub record Reply : Type 0 where
  pub status : ℕ
  pub code : Code

-- An error that a handler returns, by its status (`fiber.NewError`).
pub record HttpError : Type 0 where
  pub status : ℕ
  pub message : Text

-- `c.Locals`, each key a field, and the answers sent, the last one first. `position` is how far fiber
-- has got among the handlers: what `c.Next()` reads and moves, and nothing else.
pub record Ctx : Type 0 where
  pub request : Request
  pub position : ℕ
  pub version_context : Option VersionContext
  pub pagination_context : Option PaginationContext
  pub user_specified_pagination : Bool
  pub auto_pagination_applied : Bool
  pub user_id : Option ℤ
  pub org_id : Option ℤ
  pub username : Option Text
  pub user_role : Option Text
  pub token_categories : Option (List Text)
  pub replies : List Reply

-- A handler's returned error is `none` for nil. `c.Next()` is fiber's, and one of these too: an
-- argument `next` of each middleware that calls it.
abbrev pub Handler : Type 0
Handler = Ctx → Ctx × Option HttpError

-- `c.Status(status).JSON(...)` sends an answer and returns nil.
abbrev pub answer : ℕ → Code → Handler
answer status code c =
    (record c { replies = record { status = status; code = code } ∷ c.replies }, none)
