-- ===== src/Tests/Books.antt =====
-- The guest books of examples/example_route_params_user_defined_types.cpp and examples/example_router.cpp
-- at concrete inputs.
use asyncgi.Examples.Numbers.{from_string, converted}
use asyncgi.Examples.Routing.{run_router, run}
use asyncgi.Router.Decimal.{to_string}
use asyncgi.Common.{◌≡◌, refl, [], ◌∷◌, ◌++◌, arith, Bytes, text, pos, negsuc}
use asyncgi.Tests.Requests.{Sent, asked, router}
use asyncgi.Examples.Http.{redirect, RequestMethod, post}
use asyncgi.Examples.Vector.{remove_from, remove_from_lem}
use asyncgi.Examples.NumberedBook.{
  numbered_page, forms_from, form_of, numbered_routes, forms_delete_their_message,
}
use asyncgi.Examples.PlainBook.{plain_routes, book_form}

remove_from_example :
    (remove_from (pos 1) (text "abc") ≡ text "ac")
    × (remove_from (pos 5) (text "xyz") ≡ text "xyz")
    × (remove_from (negsuc 2) (text "xyz") ≡ text "xyz")
remove_from_example =
    remove_from_lem (text "a") (text "c") (text "xyz") b'b' 2 (omega arith) (omega arith)

from_string_run : from_string (to_string 42) ≡ converted (pos 42)
unfolding from_string to_string
from_string_run = refl

abbrev asks : RequestMethod → Bytes → Bytes → Sent
asks m p msg = record {
  sent_path = p;
  sent_method = m;
  admin_id = [];
  fields = (text "msg", msg) ∷ [];
}

forms_delete_their_message_example :
    (numbered_page (text "a" ∷ text "b" ∷ [])
      ≡ text "<h1>Guest book</h1>"
        ++ (forms_from 0 (text "a" ∷ []) ++ (form_of 1 (text "b") ++ []))
        ++ text "<hr>"
        ++ book_form)
    × (router.dispatch
          (numbered_routes asked)
          (asks post (text "/delete/1") [])
          (record { context = tt; state = text "a" ∷ text "b" ∷ [] })
        ≡ (redirect (text "/") [], text "a" ∷ []))
unfolding run_router to_string
forms_delete_their_message_example =
    forms_delete_their_message asked router (asks post (text "/delete/1") []) (text "a" ∷ []) []
      (text "b") (omega arith) refl refl refl refl

plain_book_runs :
    router.dispatch
      (plain_routes asked)
      (asks post (text "/") (text "hi"))
      (record { context = tt; state = text "a" ∷ [] })
    ≡ (redirect (text "/") [], text "a" ∷ text "hi" ∷ [])
unfolding run_router run plain_routes
plain_book_runs = refl
