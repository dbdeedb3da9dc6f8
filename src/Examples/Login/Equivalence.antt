-- ===== src/Examples/Login/Equivalence.antt =====
-- The two login examples side by side.
use asyncgi.Common.{
  ◌≡◌, inl, inr, some, List, [], ◌∷◌, arith, if◌then◌else◌, Bool-cases, Option-cases, Bytes, text,
}
use asyncgi.Examples.Http.{Asked, Response, page, status_page, redirect, status, found_redirect}
use asyncgi.Examples.Text.{equal, is_space}
use asyncgi.Examples.Routing.{Visit, exact, rx}
use asyncgi.Examples.Routing.{RequestRouter, run, dispatch-run}
use asyncgi.Examples.Login.Context
use asyncgi.Examples.Login.Matchers
use asyncgi.Examples.Login.Context.{
  AccessRole, admin, guest, RouteContext, LoginRoute, authorize, new_context, context_routes,
}
use asyncgi.Examples.Login.Matchers.{match_role, matcher_routes}

-- A text without its white space.
abbrev pub compact : Bytes → Bytes
compact [] = []
compact (c ∷ s) = if is_space c then compact s else c ∷ compact s

-- A response but for the white space in its page and the type of its redirection.
abbrev pub essence : Response → Response
essence (page s) = page (compact s)
essence (status n) = status n
essence (status_page n s) = status_page n s
essence (redirect path cookies) = redirect path cookies
essence (found_redirect path) = redirect path []

module _ {ℓ} {R : Type ℓ} (asked : Asked R) where
  -- Both programs answer every request that the pattern ".*" fits in the same way, but for the white
  -- space in a page and the type of a redirection: it makes no difference whether the processors ask
  -- for the role or the routes do.
  pub same_logins :
      (router : RequestRouter R RouteContext (Unit {0}) asked) (r : R) (all : List Bytes)
      → router.match_path (rx (text ".*")) (asked.path r) ≡ some all
      → essence
          (router.dispatch
            (context_routes asked)
            r
            (record { context = new_context; state = tt })).0
        ≡ essence
            (router.dispatch
              (matcher_routes asked)
              r
              (record { context = new_context; state = tt })).0
  unfolding run context_routes matcher_routes authorize Context.hello Context.login_page
      Context.login_page_authorize Matchers.login_page_authorize match_role
  same_logins router r all everything =
      rw
        (dispatch-run router (context_routes asked) r, dispatch-run router (matcher_routes asked) r)
        same
    where
      start : Visit RouteContext (Unit {0})
      start = record { context = new_context; state = tt }

      same :
          essence (run asked router.match_path (context_routes asked) r start).0
          ≡ essence (run asked router.match_path (matcher_routes asked) r start).0
      same = elim (Option-cases (router.match_path (exact (text "/")) (asked.path r))) [
        | inr (root, fits) ↦ ground arith
        | inl off_root ↦
            elim (Option-cases (router.match_path (exact (text "/login")) (asked.path r))) [
              | inl off_login ↦ let last = router.every_path (asked.path r) in ground (arith, last)
              | inr (login, fits) ↦
                  elim (Bool-cases
                    (equal (asked.cookie (text "admin_id") r) (text "ADMIN_SECRET"))) [
                      | inl secret ↦ ground arith
                      | inr public ↦ ground arith
                    ]
            ]
      ]
