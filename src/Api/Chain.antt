-- ===== src/Api/Chain.antt =====
-- internal/api/routes/routes.go, `setupVersionedRoutes`: the middleware of a versioned request, and
-- how often and on what it runs the handlers behind it.
use tmidb_core.Base.{
  ◌≡◌, ◌⊎◌, refl, sym, subst, ◌&&◌, not, true, false, [], ◌∷◌, Option, none, some, Text, arith,
  Option-cases, Bool-cases, inl, inr, ltb_int, pos, ℤ, bytes, is_empty,
}
use tmidb_core.Base.Strings.{atoi}
use tmidb_core.Api.{Ctx, Handler, answer, pagination_size_exceeded}
use tmidb_core.Api.Version.{version_of, version_middleware}
use tmidb_core.Api.Pagination.{
  positive, or_else, paging, pagination_middleware, auto_pagination_middleware,
  auto_pagination_rest, should_enable_auto_pagination, apply_auto_pagination,
}
use tmidb_core.Api.Session.{Verify, token_auth_required}

-- The middleware of a version's group, up to the paging.
unfoldable pub versioned_chain : Text → (ℤ → Text → Option ℤ) → Handler → Handler
versioned_chain version count next =
    version_middleware version (auto_pagination_middleware count next)

-- What stands behind it. `CategoryFromParams` is the request's category.
abbrev pub authenticated : (Text → Text) → Verify → Handler → Handler
authenticated hash verify handler =
    token_auth_required hash verify (bytes "read") (some (λ c. c.request.category)) handler

-- No organisation is known, and no paging was applied by itself.
abbrev pub IsAnonymous : Ctx → Type 0
IsAnonymous c = (c.org_id ≡ none) × (c.auto_pagination_applied ≡ false)

abbrev pub KeepsAnonymous : Handler → Type 0
KeepsAnonymous h = (c : Ctx) → IsAnonymous c → IsAnonymous (h c).0

token_auth_required-KeepsAnonymous :
    (hash : Text → Text) (verify : Verify) (permission : Text) (category_of : Option (Ctx → Text))
    (next : Handler)
    → KeepsAnonymous next
    → KeepsAnonymous (token_auth_required hash verify permission category_of next)
unfolding token_auth_required
token_auth_required-KeepsAnonymous hash verify permission category_of next k c a =
    ground (arith, k c a)

pagination_middleware-KeepsAnonymous :
    (next : Handler) → KeepsAnonymous next → KeepsAnonymous (pagination_middleware next)
unfolding pagination_middleware
pagination_middleware-KeepsAnonymous next k c a =
    let page = or_else (pos 1) (positive c.request.page) in
    let size = or_else (pos 1000) (positive c.request.page_size) in
    elim (Bool-cases (ltb_int (pos 100000) size)) [
      | inl e ↦ rw e a
      | inr e ↦ rw e (k (record c { pagination_context = some (paging c.request page size) }) a)
    ]

auto_pagination_rest-KeepsAnonymous :
    (count : ℤ → Text → Option ℤ) (next : Handler)
    → KeepsAnonymous next
    → KeepsAnonymous (auto_pagination_rest count next)
unfolding auto_pagination_rest should_enable_auto_pagination
auto_pagination_rest-KeepsAnonymous count next k c a =
    ground (arith, k c a, k (record c { user_specified_pagination = true }) a)

auto_pagination_middleware-KeepsAnonymous :
    (count : ℤ → Text → Option ℤ) (next : Handler)
    → KeepsAnonymous next
    → KeepsAnonymous (auto_pagination_middleware count next)
unfolding auto_pagination_middleware
auto_pagination_middleware-KeepsAnonymous count next k c a =
    let r = pagination_middleware next c in
    let b : IsAnonymous r.0 = pagination_middleware-KeepsAnonymous next k c a in
    ground (arith, b, auto_pagination_rest-KeepsAnonymous count next k r.0 b)

-- In the middleware of a versioned route, whatever the database counts, paging is never applied by
-- itself: what decides it looks for the organisation of the request, and nothing before it, nor the
-- authentication behind it, records one. Each call of `c.Next()` in the paging is to run the
-- authentication, or what fiber finds behind it; that, and the handlers, must record none.
pub versioned_chain-KeepsAnonymous :
    (version : Text) (count : ℤ → Text → Option ℤ) (hash : Text → Text) (verify : Verify)
    (handler beyond next : Handler)
    → KeepsAnonymous handler
    → KeepsAnonymous beyond
    → ((c : Ctx) → (next c ≡ authenticated hash verify handler c) ⊎ (next c ≡ beyond c))
    → KeepsAnonymous (versioned_chain version count next)
unfolding versioned_chain version_middleware
versioned_chain-KeepsAnonymous version count hash verify handler beyond next k b either c a =
    elim (Option-cases (version_of version)) [
      | inl e ↦ ground (arith, e, a)
      | inr (v, e) ↦
          let category_of : Option (Ctx → Text) = some (λ d. d.request.category) in
          let keeps : KeepsAnonymous next = λ d an. elim (either d) [
            | inl same ↦
                subst (λ r. IsAnonymous r.0) (sym same)
                  (token_auth_required-KeepsAnonymous hash verify (bytes "read") category_of handler
                    k d an)
            | inr same ↦ subst (λ r. IsAnonymous r.0) (sym same) (b d an)
          ] in
          ground (
            arith,
            e,
            auto_pagination_middleware-KeepsAnonymous count next keeps
                (record c { version_context = some v }) a,
          )
    ]

positive-nonempty : (t : Text) (n : ℤ) → positive t ≡ some n → is_empty t ≡ false
unfolding positive atoi
positive-nonempty [] n h = absurd (cc)
positive-nonempty (x ∷ t) n h = refl

-- A request whose page size is too large is answered with 400, and `c.Next()` is called all the
-- same, on the context with that answer.
pub auto_pagination_oversize :
    (count : ℤ → Text → Option ℤ) (next : Handler) (c : Ctx) (n : ℤ)
    → positive c.request.page_size ≡ some n
    → ltb_int (pos 100000) n ≡ true
    → auto_pagination_middleware count next c
      ≡ next (record (answer 400 pagination_size_exceeded c).0 { user_specified_pagination = true })
unfolding auto_pagination_middleware auto_pagination_rest pagination_middleware
auto_pagination_oversize count next c n size large =
    let refused : pagination_middleware next c ≡ answer 400 pagination_size_exceeded c =
      ground (arith, size, large) in
    let given : is_empty c.request.page_size ≡ false =
      positive-nonempty c.request.page_size n size in
    rw (refused, auto_pagination_middleware) (ground (arith, given))

auto_pagination_rest_next :
    (count : ℤ → Text → Option ℤ) (next : Handler) (c : Ctx)
    → (e : Ctx) × (e.replies ≡ c.replies)
      × (e.position ≡ c.position)
      × (auto_pagination_rest count next c ≡ next e)
unfolding auto_pagination_rest apply_auto_pagination
auto_pagination_rest_next count next c = elim (Bool-cases (is_empty c.request.page_size)) [
  | inl e ↦
      elim (Bool-cases (
        not (is_empty c.request.category)
        && should_enable_auto_pagination count c c.request.category)) [
          | inl f ↦ (apply_auto_pagination c, refl, refl, ground (arith, e, f))
          | inr f ↦ (c, refl, refl, ground (arith, e, f))
        ]
  | inr e ↦ (record c { user_specified_pagination = true }, refl, refl, ground (arith, e))
]

-- A request whose paging is accepted has `c.Next()` called twice: first on its own context with the
-- paging, and, where that returns no error, again on what it left, from the position it left.
pub auto_pagination_next_twice :
    (count : ℤ → Text → Option ℤ) (next : Handler) (c : Ctx)
    → ltb_int (pos 100000) (or_else (pos 1000) (positive c.request.page_size)) ≡ false
    → (d : Ctx) × (d.request ≡ c.request)
      × (d.replies ≡ c.replies)
      × (d.position ≡ c.position)
      × (((next d).1 ≡ none)
          → (e : Ctx) × (e.replies ≡ (next d).0.replies)
            × (e.position ≡ (next d).0.position)
            × (auto_pagination_middleware count next c ≡ next e))
unfolding auto_pagination_middleware pagination_middleware
auto_pagination_next_twice count next c small =
    let page = or_else (pos 1) (positive c.request.page) in
    let size = or_else (pos 1000) (positive c.request.page_size) in
    let d : Ctx = record c { pagination_context = some (paging c.request page size) } in
    (
      d,
      refl,
      refl,
      refl,
      λ done.
          let (e, same, there, run) = auto_pagination_rest_next count next (next d).0 in
          (e, same, there, ground (arith, small, done, run)),
    )
