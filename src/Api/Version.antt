-- ===== src/Api/Version.antt =====
-- internal/api/middleware/version.go: the API version of a request.
use tmidb_core.Base.{
  Bool, true, false, ◌||◌, List, [], ◌∷◌, Option, none, some, if◌then◌else◌, Text, bytes, text_eq,
  ℤ, pos, ltb_int,
}
use tmidb_core.Base.Strings.{strip_prefix, to_lower, digits, atoi, is_some}
use tmidb_core.Api.{Ctx, Handler, HttpError, VersionContext, answer, version_unsupported}

abbrev pub single : Text → Text → VersionContext
single version target = record {
  requested_version = version;
  target_versions = target ∷ [];
  is_multi_version = false;
}

-- The `switch` of `VersionMiddleware`.
unfoldable pub version_of : Text → Option VersionContext
version_of version =
    if text_eq version (bytes "v1")
    then some (single version (bytes "1"))
    else if text_eq version (bytes "v2")
    then some (single version (bytes "2"))
    else if text_eq version (bytes "latest")
    then some (single version (bytes "latest"))
    else if text_eq version (bytes "all")
    then some (record (single version (bytes "all")) { is_multi_version = true })
    else none

unfoldable pub version_middleware : Text → Handler → Handler
version_middleware version next c = elim (version_of version) [
  | none ↦ answer 400 version_unsupported c
  | some v ↦ next (record c { version_context = some v })
]

unfoldable pub get_version_context : Ctx → VersionContext
get_version_context c = elim c.version_context [
  | some v ↦ v
  | none ↦ single (bytes "v1") (bytes "1")
]

-- The digits of `^v(\d+)$`; `none` where the pattern does not match.
unfoldable pub version_digits : Text → Option Text
version_digits version = elim (strip_prefix (bytes "v") version) [
  | none ↦ none
  | some rest ↦ if is_some (digits rest) then some rest else none
]

abbrev bad_version : HttpError
bad_version = record { status = 400; message = bytes "Invalid version number" }

abbrev bad_format : HttpError
bad_format = record { status = 400; message = bytes "Invalid version format" }

pub data Normalized : Type 0 where
  version : Text → Normalized
  rejected : HttpError → Normalized

unfoldable pub normalize_version : Text → Normalized
unfolding version_digits
normalize_version v =
    if text_eq (to_lower v) (bytes "latest")
    then version (bytes "latest")
    else if text_eq (to_lower v) (bytes "all")
    then version (bytes "all")
    else elim (version_digits v) [
      | none ↦ rejected bad_format
      | some ds ↦ elim (atoi ds) [
        | none ↦ rejected bad_version
        | some n ↦ if ltb_int n (pos 1) then rejected bad_version else version v
      ]
    ]

-- `none` is the error of `Atoi`, or of a text that is no version.
unfoldable pub get_version_number : Text → Option ℤ
unfolding version_digits
get_version_number v = elim (version_digits v) [ none ↦ none | some ds ↦ atoi ds ]

unfoldable pub is_latest_version : Text → Bool
is_latest_version v = text_eq (to_lower v) (bytes "latest")

unfoldable pub is_all_versions : Text → Bool
is_all_versions v = text_eq (to_lower v) (bytes "all")

unfoldable pub has_version : Text → List Text → Bool
has_version v [] = false
has_version v (a ∷ available) = text_eq a v || has_version v available

abbrev strip_v : Text → Text
strip_v v = elim (strip_prefix (bytes "v") v) [ none ↦ v | some rest ↦ rest ]

-- `ValidateVersionAccess` once the organisation is known; `available` are the versions that the
-- database returns for it and the category, `none` if the query fails with `failure`.
unfoldable pub validate_version_access : HttpError → Option (List Text) → Text → Option HttpError
unfolding has_version
validate_version_access failure none requested = some failure
validate_version_access failure (some []) requested =
    some (record { status = 404; message = bytes "Category not found or no data available" })
validate_version_access failure (some (a ∷ available)) requested =
    if text_eq requested (bytes "latest") || text_eq requested (bytes "all")
    then none
    else if has_version (strip_v requested) (a ∷ available)
    then none
    else some (record {
      status = 404;
      message = bytes "Requested version not available for this category";
    })
