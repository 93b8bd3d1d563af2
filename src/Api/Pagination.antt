-- ===== src/Api/Pagination.antt =====
-- internal/api/middleware/version.go: the paging of a request.
use tmidb_core.Base.{
  Bool, true, false, not, ◌&&◌, Option, none, some, if◌then◌else◌, Text, bytes, text_eq, is_empty,
  ℤ, pos, ltb_int, leb_int,
}
use tmidb_core.Base.Strings.{atoi}
use tmidb_core.Api.{Ctx, Request, Handler, PaginationContext, answer, pagination_size_exceeded}

abbrev pub default_pagination : PaginationContext
default_pagination = record {
  page = pos 1;
  page_size = pos 1000;
  auto_pagination = false;
  max_page_size = pos 100000;
}

-- A parameter that is a positive number; anything else counts as missing.
unfoldable pub positive : Text → Option ℤ
positive s = elim (atoi s) [ none ↦ none | some n ↦ if ltb_int (pos 0) n then some n else none ]

abbrev pub or_else : ℤ → Option ℤ → ℤ
or_else default none = default
or_else default (some n) = n

abbrev pub paging : Request → ℤ → ℤ → PaginationContext
paging r page size = record {
  page = page;
  page_size = size;
  auto_pagination = text_eq r.auto_size (bytes "true");
  max_page_size = pos 100000;
}

-- The empty text is no number, so its separate test changes nothing.
unfoldable pub pagination_middleware : Handler → Handler
pagination_middleware next c =
    let page = or_else (pos 1) (positive c.request.page) in
    let size = or_else (pos 1000) (positive c.request.page_size) in
    if ltb_int (pos 100000) size
    then answer 400 pagination_size_exceeded c
    else next (record c { pagination_context = some (paging c.request page size) })

unfoldable pub get_pagination_context : Ctx → PaginationContext
get_pagination_context c = elim c.pagination_context [ some p ↦ p | none ↦ default_pagination ]

-- `GetOrgIDFromToken`.
unfoldable pub get_org_id_from_token : Ctx → Option ℤ
get_org_id_from_token c = c.org_id

-- `count` is the database's count for an organisation and a category, `none` if the query fails.
unfoldable pub should_enable_auto_pagination : (ℤ → Text → Option ℤ) → Ctx → Text → Bool
unfolding get_org_id_from_token
should_enable_auto_pagination count c category = elim (get_org_id_from_token c) [
  | none ↦ false
  | some org ↦ elim (count org category) [ none ↦ false | some n ↦ leb_int (pos 100000) n ]
]

-- What is kept of the paging of a large category.
unfoldable pub apply_auto_pagination : Ctx → Ctx
unfolding get_pagination_context
apply_auto_pagination c =
    let p = get_pagination_context c in
    record c {
      pagination_context = some (record p {
        auto_pagination = true;
        page_size = if ltb_int (pos 1000) p.page_size then pos 1000 else p.page_size;
      });
      auto_pagination_applied = true;
    }

-- The rest of `AutoPaginationMiddleware` once the paging handler has returned nil.
unfoldable pub auto_pagination_rest : (ℤ → Text → Option ℤ) → Handler → Handler
auto_pagination_rest count next c =
    if not (is_empty c.request.page_size)
    then next (record c { user_specified_pagination = true })
    else if not (is_empty c.request.category)
        && should_enable_auto_pagination count c c.request.category
    then next (apply_auto_pagination c)
    else next c

-- The paging handler calls `c.Next()` too, before the rest does.
unfoldable pub auto_pagination_middleware : (ℤ → Text → Option ℤ) → Handler → Handler
auto_pagination_middleware count next c =
    let (c', e) = pagination_middleware next c in
    elim e [ some e ↦ (c', some e) | none ↦ auto_pagination_rest count next c' ]
