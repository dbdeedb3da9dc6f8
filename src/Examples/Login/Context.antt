-- ===== src/Examples/Login/Context.antt =====
-- examples/example_route_context.cpp: the login pages, with the role tested in the processors.
use asyncgi.Common.{true, ◌&&◌, none, some, List, [], ◌∷◌, ◌++◌, if◌then◌else◌, Bytes, text}
use asyncgi.Examples.Http.{Asked, Response, page, status_page, redirect, get, post, same_method}
use asyncgi.Examples.Text.{equal}
use asyncgi.Examples.Routing.{Route, exact, rx, anywhere}

pub data AccessRole : Type 0 where
  admin : AccessRole
  guest : AccessRole

pub record RouteContext : Type 0 where
  pub role : AccessRole

abbrev pub new_context : RouteContext
new_context = record { role = guest }

abbrev pub LoginRoute {ℓ} : Type ℓ → Type ℓ
LoginRoute R = Route R RouteContext (Unit {0})

abbrev pub at_login_page : Bytes
at_login_page =
    text "\n"
    ++ text "                    <html>\n"
    ++ text "                    <form method=\"post\" enctype=\"multipart/form-data\">\n"
    ++ text "                    <label for=\"msg\">Login:</label>\n"
    ++ text "                    <input id=\"login\" name=\"login\" value=\"\">\n"
    ++ text "                    <label for=\"msg\">Password:</label>\n"
    ++ text "                    <input id=\"passwd\" name=\"passwd\" value=\"\">\n"
    ++ text "                    <input value=\"Submit\" data-popup=\"true\" type=\"submit\">\n"
    ++ text "                    </form></html>"

abbrev pub hello_admin : Bytes
hello_admin = text "<p>Hello admin</p>"

abbrev pub hello_guest : Bytes
hello_guest = text "<p>Hello guest</p><p><a href=\"/login\">login</a>"

module _ {ℓ} {R : Type ℓ} (asked : Asked R) where
  -- AdminAuthorizer
  unfoldable pub authorize : R → RouteContext → RouteContext
  authorize r c =
      if equal (asked.cookie (text "admin_id") r) (text "ADMIN_SECRET")
      then record c { role = admin }
      else c

  unfoldable pub hello : RouteContext → Response
  hello c = elim c.role [ admin ↦ page hello_admin | guest ↦ page hello_guest ]

  -- LoginPage
  unfoldable pub login_page : RouteContext → Response
  login_page c = elim c.role [ admin ↦ redirect (text "/") [] | guest ↦ page at_login_page ]

  -- LoginPageAuthorize
  unfoldable pub login_page_authorize : R → RouteContext → Response
  login_page_authorize r c = elim c.role [
    | guest ↦
        if equal (asked.form_field (text "login") r) (text "admin")
          && equal (asked.form_field (text "passwd") r) (text "12345")
        then redirect (text "/")
            (record { name = text "admin_id"; value = text "ADMIN_SECRET" } ∷ [])
        else redirect (text "/login") []
    | admin ↦ redirect (text "/") []
  ]

  unfoldable pub context_routes : List (LoginRoute R)
  unfolding authorize hello login_page login_page_authorize
  context_routes =
      record {
        route_path = rx (text ".*");
        matches = λ r c. true;
        process = λ params r v. (none, record v { context = authorize r v.context });
      }
      ∷ record {
        route_path = exact (text "/");
        matches = λ r c. true;
        process = λ params r v. (some (hello v.context), v);
      }
      ∷ record {
        route_path = exact (text "/login");
        matches = λ r c. same_method get (asked.method r);
        process = λ params r v. (some (login_page v.context), v);
      }
      ∷ record {
        route_path = exact (text "/login");
        matches = λ r c. same_method post (asked.method r);
        process = λ params r v. (some (login_page_authorize r v.context), v);
      }
      ∷ record {
        route_path = anywhere;
        matches = λ r c. true;
        process = λ params r v. (some (status_page 404 (text "Page not found")), v);
      }
      ∷ []
