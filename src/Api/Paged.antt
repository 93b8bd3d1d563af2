-- ===== src/Api/Paged.antt =====
-- internal/api/middleware/version.go: which page sizes a request may ask for, and the paging that it
-- then gets.
use tmidb_core.Base.{ℕ, ◌<◌, ◌≡◌, true, some, Text, bytes, text_eq, ℤ, pos, ltb_int, leb_int}
use tmidb_core.Base.Strings.{atoi}
use tmidb_core.Api.{Ctx, PaginationContext}

-- The number that a parameter stands for: its own, if it is a number above 0, and a default if not.
pub record Takes (parameter : Text) (default : ℕ) (n : ℤ) : Type 0 where
  pub given : (k : ℕ) → atoi parameter ≡ some (pos k) → 0 < k → n ≡ pos k
  pub missing : ((k : ℕ) → atoi parameter ≡ some (pos k) → k ≡ 0) → n ≡ pos default

-- The paging of a request whose page size is within the limit.
pub record IsPaged (c : Ctx) (p : PaginationContext) : Type 0 where
  pub page : Takes c.request.page 1 p.page
  pub size : Takes c.request.page_size 1000 p.page_size
  pub first : ltb_int (pos 0) p.page ≡ true
  pub nonempty : ltb_int (pos 0) p.page_size ≡ true
  pub within : leb_int p.page_size (pos 100000) ≡ true
  pub limit : p.max_page_size ≡ pos 100000
  pub auto : p.auto_pagination ≡ text_eq c.request.auto_size (bytes "true")
