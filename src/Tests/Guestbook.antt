-- ===== src/Tests/Guestbook.antt =====
-- examples/example_guestbook.cpp at concrete inputs.
use asyncgi.Examples.Regex.{regex_replace}
use asyncgi.Examples.Text.{equal}
use asyncgi.Common.{
  ◌≡◌, refl, Option, none, some, [], ◌∷◌, arith, if◌then◌else◌, Bytes, text, ℤ, pos,
}
use asyncgi.Tests.Requests.{Sent, asked, router}
use asyncgi.Examples.Http.{redirect, post}
use asyncgi.Examples.Routing.{run_router}
use asyncgi.Examples.Guestbook.State.{GuestBookState, GuestBookMessage}
use asyncgi.Examples.Guestbook.Pages.{admin, make_links_div, guest_book_page, put_error}
use asyncgi.Examples.Guestbook.Handlers.{routes, new_context}
use asyncgi.Examples.Guestbook.Escaping.{serve, AllEscaped, messages_are_escaped}
use asyncgi.Examples.Guestbook.Access.{Extends, guests_cannot_delete, admins_delete}
use asyncgi.Examples.Guestbook.PlainText.{shown, literal-IsPlain}
use asyncgi.Examples.Guestbook.Placeholders.{filled, plain_page}

abbrev writes : Bytes → Bytes → Sent
writes name msg = record {
  sent_path = text "/";
  sent_method = post;
  admin_id = [];
  fields = (text "name", name) ∷ (text "msg", msg) ∷ [];
}

abbrev deletes : Bytes → Sent
deletes secret = record {
  sent_path = text "/delete/1";
  sent_method = post;
  admin_id = secret;
  fields = [];
}

-- The one parameter that the tests' paths have.
abbrev int_parameter : Bytes → Option ℤ
int_parameter s = if equal s (text "1") then some (pos 1) else none

abbrev ann : GuestBookMessage
ann = record { name = text "Ann"; content = text "Hi" }

abbrev bob : GuestBookMessage
bob = record { name = text "Bob"; content = text "Bye" }

abbrev two : GuestBookState
two = record { messages = ann ∷ bob ∷ [] }

abbrev empty_book : GuestBookState
empty_book = record { messages = [] }

book_runs :
    serve asked router int_parameter
      (writes [] (text "<b>1 > 0</b>")
        ∷ writes (text "Bob") (text "see http://a.b")
        ∷ writes (text "Bob") (text " ")
        ∷ [])
      empty_book
    ≡ record {
      messages = record { name = text "Guest"; content = text "&lt;b&gt;1 &gt; 0&lt;/b&gt;" } ∷ [];
    }
unfolding routes run_router
book_runs = refl

messages_are_escaped_example :
    AllEscaped
      (serve asked router int_parameter (writes [] (text "<b>") ∷ deletes [] ∷ []) empty_book)
messages_are_escaped_example =
    messages_are_escaped asked router int_parameter (writes [] (text "<b>") ∷ deletes [] ∷ [])

guests_cannot_delete_example :
    Extends two (serve asked router int_parameter (deletes [] ∷ deletes (text "SECRET") ∷ []) two)
guests_cannot_delete_example =
    guests_cannot_delete asked router int_parameter (deletes [] ∷ deletes (text "SECRET") ∷ []) two
      (refl, (refl, tt))

admins_delete_example :
    router.dispatch
      (routes asked int_parameter)
      (deletes (text "ADMIN_SECRET"))
      (record { context = new_context; state = two })
    ≡ (redirect (text "/") [], record { messages = ann ∷ [] })
unfolding run_router
admins_delete_example =
    admins_delete asked router int_parameter (deletes (text "ADMIN_SECRET")) (text "1") []
      (ann ∷ []) [] bob refl refl refl refl refl refl (omega arith)

plain_page_example :
    guest_book_page none two.messages admin
    ≡ filled (make_links_div admin) (shown admin two.messages) []
plain_page_example = plain_page two.messages admin (omega arith) (
  (literal-IsPlain (text "Ann") refl, literal-IsPlain (text "Hi") refl),
  ((literal-IsPlain (text "Bob") refl, literal-IsPlain (text "Bye") refl), tt),
)

-- Two messages as they are put into the page: the first is read as a format, the second is replaced
-- together with the placeholder of the page.
placeholder_runs :
    (regex_replace (text "[%MESSAGES%]") (text "%MESSAGES%") (text "<pre>$&</pre>")
      ≡ text "[<pre>%MESSAGES%</pre>]")
    × (put_error none (text "<pre>%ERROR_MSG%</pre>[%ERROR_MSG%]") ≡ text "<pre></pre>[]")
unfolding regex_replace put_error
placeholder_runs = (refl, refl)
