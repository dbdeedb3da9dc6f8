-- ===== src/Examples/Login/Matchers.antt =====
-- examples/example_route_matcher.cpp: the login pages, with the role tested by a RouteMatcher.
use asyncgi.Common.{
  Bool, true, false, ◌&&◌, none, some, List, [], ◌∷◌, ◌++◌, if◌then◌else◌, Bytes, text,
}
use asyncgi.Examples.Http.{
  Asked, Response, page, status_page, redirect, get, post, same_method, found_redirect,
}
use asyncgi.Examples.Text.{equal}
use asyncgi.Examples.Routing.{exact, rx, anywhere}
use asyncgi.Examples.Login.Context.{
  AccessRole, admin, guest, RouteContext, LoginRoute, hello_admin, hello_guest, authorize,
}

abbrev pub at_login_page : Bytes
at_login_page =
    text "\n"
    ++ text "                <html>\n"
    ++ text "                <form method=\"post\" enctype=\"multipart/form-data\">\n"
    ++ text "                <label for=\"msg\">Login:</label>\n"
    ++ text "                <input id=\"login\" name=\"login\" value=\"\">\n"
    ++ text "                <label for=\"msg\">Password:</label>\n"
    ++ text "                <input id=\"passwd\" name=\"passwd\" value=\"\">\n"
    ++ text "                <input value=\"Submit\" data-popup=\"true\" type=\"submit\">\n"
    ++ text "                </form></html>"

-- The RouteMatcher of AccessRole
unfoldable pub match_role : AccessRole → RouteContext → Bool
match_role admin c = elim c.role [ admin ↦ true | guest ↦ false ]
match_role guest c = elim c.role [ admin ↦ false | guest ↦ true ]

module _ {ℓ} {R : Type ℓ} (asked : Asked R) where
  -- LoginPageAuthorize
  unfoldable pub login_page_authorize : R → Response
  login_page_authorize r =
      if equal (asked.form_field (text "login") r) (text "admin")
        && equal (asked.form_field (text "passwd") r) (text "12345")
      then redirect (text "/") (record { name = text "admin_id"; value = text "ADMIN_SECRET" } ∷ [])
      else redirect (text "/login") []

  unfoldable pub matcher_routes : List (LoginRoute R)
  unfolding authorize match_role login_page_authorize
  matcher_routes =
      record {
        route_path = rx (text ".*");
        matches = λ r c. true;
        process = λ params r v. (none, record v { context = authorize asked r v.context });
      }
      ∷ record {
        route_path = exact (text "/");
        matches = λ r c. true;
        process = λ params r v.
            (some (elim v.context.role [ admin ↦ page hello_admin | guest ↦ page hello_guest ]), v);
      }
      ∷ record {
        route_path = exact (text "/login");
        matches = λ r c. same_method get (asked.method r) && match_role guest c;
        process = λ params r v. (some (page at_login_page), v);
      }
      ∷ record {
        route_path = exact (text "/login");
        matches = λ r c. same_method post (asked.method r) && match_role guest c;
        process = λ params r v. (some (login_page_authorize r), v);
      }
      ∷ record {
        route_path = exact (text "/login");
        matches = λ r c. same_method get (asked.method r) && match_role admin c;
        process = λ params r v. (some (found_redirect (text "/")), v);
      }
      ∷ record {
        route_path = exact (text "/login");
        matches = λ r c. same_method post (asked.method r) && match_role admin c;
        process = λ params r v. (some (found_redirect (text "/")), v);
      }
      ∷ record {
        route_path = anywhere;
        matches = λ r c. true;
        process = λ params r v. (some (status_page 404 (text "Page not found")), v);
      }
      ∷ []
