-- ===== src/Examples/Guestbook/Handlers.antt =====
-- The request processors of examples/example_guestbook.cpp and the routes that main() registers.
-- `int_parameter` is how whaleroute reads an int parameter of a path, or fails to.
use asyncgi.Common.{
  Bool, true, false, ◌&&◌, ◌||◌, Option, none, some, List, [], ◌∷◌, if◌then◌else◌, Bytes, text, ℤ,
}
use asyncgi.Examples.Http.{
  Asked, Response, page, status, status_page, redirect, RequestMethod, get, post, same_method,
}
use asyncgi.Examples.Routing.{Route, Visit, exact, rx, anywhere}
use asyncgi.Examples.Text.{equal, all_of, is_space, contains}
use asyncgi.Examples.Guestbook.State.{GuestBookState, add_message, remove_message}
use asyncgi.Examples.Guestbook.Pages.{AccessRole, admin, guest, login_page, guest_book_page}

pub record RouteContext : Type 0 where
  pub role : AccessRole

-- What main() starts a request with.
abbrev pub new_context : RouteContext
new_context = record { role = guest }

-- The RouteMatcher of AccessRole
unfoldable pub match_role : AccessRole → RouteContext → Bool
match_role admin c = elim c.role [ admin ↦ true | guest ↦ false ]
match_role guest c = elim c.role [ admin ↦ false | guest ↦ true ]

abbrev pub GuestBookRoute {ℓ} : Type ℓ → Type ℓ
GuestBookRoute R = Route R RouteContext GuestBookState

module _ {ℓ} {R : Type ℓ} (asked : Asked R) where
  -- The RouteMatcher of http::RequestMethod (include/asyncgi/router.h)
  unfoldable pub match_method : RequestMethod → R → Bool
  match_method value r = same_method value (asked.method r)

  unfoldable pub authorize_admin : R → RouteContext → Option Response × RouteContext
  authorize_admin r c = (
    none,
    if equal (asked.cookie (text "admin_id") r) (text "ADMIN_SECRET")
        then record c { role = admin }
        else c,
  )

  unfoldable pub login_admin : R → Response
  login_admin r =
      if equal (asked.form_field (text "login") r) (text "admin")
        && equal (asked.form_field (text "passwd") r) (text "12345")
      then redirect (text "/") (record { name = text "admin_id"; value = text "ADMIN_SECRET" } ∷ [])
      else redirect (text "/login") []

  abbrev pub logout_admin : Response
  logout_admin = redirect (text "/") (record { name = text "admin_id"; value = [] } ∷ [])

  unfoldable pub show_guest_book_page : R → RouteContext → GuestBookState → Response
  unfolding guest_book_page
  show_guest_book_page r c s = page (
      guest_book_page
        (if asked.has_query (text "error") r then some (asked.query (text "error") r) else none)
        s.messages c.role)

  unfoldable pub post_message : R → GuestBookState → Response × GuestBookState
  unfolding add_message
  post_message r s =
      let msg = asked.form_field (text "msg") r in
      if all_of is_space msg
      then (redirect (text "/?error=empty_msg") [], s)
      else if contains (text "http://") msg || contains (text "https://") msg
      then (redirect (text "/?error=urls_in_msg") [], s)
      else (redirect (text "/") [], add_message (asked.form_field (text "name") r) msg s)

  -- removeMessage behind the conversion of its parameter. Where that fails, Router answers with 500.
  unfoldable pub delete_message :
      (Bytes → Option ℤ) → List Bytes → GuestBookState → Response × GuestBookState
  unfolding remove_message
  delete_message int_parameter [] s = (status 500, s)
  delete_message int_parameter (p ∷ rest) s = elim (int_parameter p) [
    | none ↦ (status 500, s)
    | some index ↦ (redirect (text "/") [], remove_message index s)
  ]

  -- set(): the response is always the same.
  abbrev pub always :
      Response
      → List Bytes
      → R
      → Visit RouteContext GuestBookState
      → Option Response × Visit RouteContext GuestBookState
  always response params r v = (some response, v)

  abbrev pub answers :
      Response × GuestBookState → RouteContext → Option Response × Visit RouteContext GuestBookState
  answers (response, s) c = (some response, record { context = c; state = s })

  unfoldable pub routes : (Bytes → Option ℤ) → List (GuestBookRoute R)
  unfolding match_role match_method authorize_admin login_admin show_guest_book_page post_message
      delete_message
  routes int_parameter =
      record {
        route_path = rx (text ".*");
        matches = λ r c. true;
        process = λ params r v.
            let (response, c) = authorize_admin r v.context in (response, record v { context = c });
      }
      ∷ record {
        route_path = exact (text "/");
        matches = λ r c. match_method get r;
        process = λ params r v. (some (show_guest_book_page r v.context v.state), v);
      }
      ∷ record {
        route_path = exact (text "/");
        matches = λ r c. match_method post r;
        process = λ params r v. answers (post_message r v.state) v.context;
      }
      ∷ record {
        route_path = rx (text "/delete/(.+)");
        matches = λ r c. match_method post r && match_role admin c;
        process = λ params r v. answers (delete_message int_parameter params v.state) v.context;
      }
      ∷ record {
        route_path = rx (text "/delete/(.+)");
        matches = λ r c. match_method post r && match_role guest c;
        process = always (status 401);
      }
      ∷ record {
        route_path = exact (text "/login");
        matches = λ r c. match_method get r && match_role guest c;
        process = always (page login_page);
      }
      ∷ record {
        route_path = exact (text "/login");
        matches = λ r c. match_method post r && match_role guest c;
        process = λ params r v. (some (login_admin r), v);
      }
      ∷ record {
        route_path = exact (text "/logout");
        matches = λ r c. true;
        process = always logout_admin;
      }
      ∷ record {
        route_path = anywhere;
        matches = λ r c. true;
        process = always (status_page 404 (text "Page not found"));
      }
      ∷ []
