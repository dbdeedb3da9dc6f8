-- ===== src/Examples/PlainBook.antt =====
-- examples/example_router.cpp: a guest book without names and without deletion.
use asyncgi.Common.{true, some, List, [], ◌∷◌, ◌++◌, if◌then◌else◌, Bytes, text, is_empty}
use asyncgi.Examples.Http.{Asked, Response, page, status_page, redirect, get, post, same_method}
use asyncgi.Examples.Routing.{Route, exact, anywhere}

abbrev pub book_form : Bytes
book_form =
    text "<form method=\"post\" enctype=\"multipart/form-data\">"
    ++ text "<label for=\"msg\">Message:</label>"
    ++ text "<input id=\"msg\" name=\"msg\" value=\"\">"
    ++ text "<input value=\"Submit\" data-popup=\"true\" type=\"submit\">"
    ++ text "</form>"

-- GuestBookState::addMessage
unfoldable pub add_message : Bytes → List Bytes → List Bytes
add_message msg messages = messages ++ msg ∷ []

-- The loop over the messages in GuestBookPage
abbrev paragraphs : List Bytes → Bytes
paragraphs [] = []
paragraphs (msg ∷ rest) = text "<p>" ++ msg ++ text "</p>" ++ paragraphs rest

unfoldable pub guest_book_page : List Bytes → Bytes
guest_book_page messages =
    text "<h1>Guest book</h1>"
    ++ (if is_empty messages then text "<p>No messages</p>" else paragraphs messages)
    ++ text "<hr>"
    ++ book_form

module _ {ℓ} {R : Type ℓ} (asked : Asked R) where
  -- GuestBookAddMessage
  unfoldable pub guest_book_add_message : R → List Bytes → Response × List Bytes
  unfolding add_message
  guest_book_add_message r messages =
      (redirect (text "/") [], add_message (asked.form_field (text "msg") r) messages)

  unfoldable pub plain_routes : List (Route R (Unit {0}) (List Bytes))
  unfolding guest_book_page guest_book_add_message
  plain_routes =
      record {
        route_path = exact (text "/");
        matches = λ r c. same_method get (asked.method r);
        process = λ params r v. (some (page (guest_book_page v.state)), v);
      }
      ∷ record {
        route_path = exact (text "/");
        matches = λ r c. same_method post (asked.method r);
        process = λ params r v.
            let (response, messages) = guest_book_add_message r v.state in
            (some response, record v { state = messages });
      }
      ∷ record {
        route_path = anywhere;
        matches = λ r c. true;
        process = λ params r v. (some (status_page 404 (text "Page not found")), v);
      }
      ∷ []
