-- ===== src/Examples/NumberedBook.antt =====
-- examples/example_route_params_user_defined_types.cpp: a guest book whose messages are deleted by their
-- number in the path.
use asyncgi.Common.{
  ℕ, ◌+◌, ◌≤◌, ◌≡◌, refl, sym, ap, ◌∙◌, true, false, Option, none, some, List, [], ◌∷◌, ◌++◌,
  append_assoc, arith, if◌then◌else◌, Bytes, text, length, is_empty, length-append, pos,
}
use asyncgi.Examples.Http.{
  Asked, Response, page, status, status_page, redirect, get, post, same_method,
}
use asyncgi.Examples.Routing.{Route, RequestRouter, Visit, exact, rx, anywhere}
use asyncgi.Examples.Numbers.{
  from_string, from_string-to_string, converted, invalid_argument, out_of_range,
}
use asyncgi.Examples.Vector.{remove_from, remove_from_lem, int_max}
use asyncgi.Examples.PlainBook.{book_form, add_message}
use asyncgi.Router.Decimal.{to_string}

-- The path that the form of message i posts to.
abbrev link_path : ℕ → Bytes
link_path i = text "/delete/" ++ to_string i

unfoldable pub make_message : ℕ → Bytes → Bytes
make_message i msg =
    msg
    ++ text "<form action=\""
    ++ link_path i
    ++ text "\" method=\"post\"> <input value=\"Delete\" type=\"submit\"> </form></div>"

unfoldable pub paragraph : ℕ → Bytes → Bytes
unfolding make_message
paragraph i msg = text "<p>" ++ make_message i msg ++ text "</p>"

-- The loop of GuestBookPage, from message i on.
unfoldable pub numbered_from : ℕ → List Bytes → Bytes
unfolding paragraph
numbered_from i [] = []
numbered_from i (msg ∷ rest) = paragraph i msg ++ numbered_from (i + 1) rest

unfoldable pub numbered_page : List Bytes → Bytes
unfolding numbered_from
numbered_page messages =
    text "<h1>Guest book</h1>"
    ++ (if is_empty messages then text "<p>No messages</p>" else numbered_from 0 messages)
    ++ text "<hr>"
    ++ book_form

module _ {ℓ} {R : Type ℓ} (asked : Asked R) where
  -- GuestBookAddMessage
  unfoldable pub numbered_add_message : R → List Bytes → Response × List Bytes
  unfolding add_message
  numbered_add_message r messages =
      (redirect (text "/") [], add_message (asked.form_field (text "msg") r) messages)

  -- GuestBookRemoveMessage behind its converter. An exception of std::stoi leaves the router, and
  -- Connection::processRequest answers it with 500.
  unfoldable pub numbered_remove_message : List Bytes → List Bytes → Response × List Bytes
  unfolding from_string remove_from
  numbered_remove_message [] messages = (status 500, messages)
  numbered_remove_message (p ∷ rest) messages = elim (from_string p) [
    | converted index ↦ (redirect (text "/") [], remove_from index messages)
    | invalid_argument ↦ (status 500, messages)
    | out_of_range ↦ (status 500, messages)
  ]

  abbrev pub replies : Response × List Bytes → Option Response × Visit (Unit {0}) (List Bytes)
  replies (response, messages) = (some response, record { context = tt; state = messages })

  unfoldable pub numbered_routes : List (Route R (Unit {0}) (List Bytes))
  unfolding numbered_page numbered_add_message numbered_remove_message
  numbered_routes =
      record {
        route_path = exact (text "/");
        matches = λ r c. same_method get (asked.method r);
        process = λ params r v. replies (page (numbered_page v.state), v.state);
      }
      ∷ record {
        route_path = exact (text "/");
        matches = λ r c. same_method post (asked.method r);
        process = λ params r v. replies (numbered_add_message r v.state);
      }
      ∷ record {
        route_path = rx (text "/delete/(.+)");
        matches = λ r c. same_method post (asked.method r);
        process = λ params r v. replies (numbered_remove_message params v.state);
      }
      ∷ record {
        route_path = anywhere;
        matches = λ r c. true;
        process = λ params r v. replies (status_page 404 (text "Page not found"), v.state);
      }
      ∷ []

from_string-small : (n : ℕ) → n ≤ int_max → from_string (to_string n) ≡ converted (pos n)
from_string-small n h = from_string-to_string n ∙ ground arith

-- The path that deletes message i, and the paragraph of a message that has it in its form.
abbrev pub delete_path : ℕ → Bytes
delete_path i = text "/delete/" ++ to_string i

abbrev pub form_of : ℕ → Bytes → Bytes
form_of i msg =
    text "<p>"
    ++ (msg
        ++ text "<form action=\""
        ++ delete_path i
        ++ text "\" method=\"post\"> <input value=\"Delete\" type=\"submit\"> </form></div>")
    ++ text "</p>"

abbrev pub forms_from : ℕ → List Bytes → Bytes
forms_from i [] = []
forms_from i (msg ∷ rest) = form_of i msg ++ forms_from (i + 1) rest

forms_from-append :
    (k n : ℕ) (before after : List Bytes)
    → n ≡ k + length before
    → forms_from k (before ++ after) ≡ forms_from k before ++ forms_from n after
forms_from-append k n [] after e = ap (λ j. forms_from j after) (omega arith)
forms_from-append k n (m ∷ before) after e =
    rw (forms_from-append (k + 1) n before after (omega arith))
      (sym (append_assoc (form_of k m) _ _))

numbered_from-forms :
    (i : ℕ) (messages : List Bytes) → numbered_from i messages ≡ forms_from i messages
unfolding numbered_from paragraph make_message
numbered_from-forms i [] = refl
numbered_from-forms i (m ∷ rest) = ap (λ s. form_of i m ++ s) (numbered_from-forms (i + 1) rest)

is_empty-middle :
    (before : List Bytes) (m : Bytes) (after : List Bytes) → is_empty (before ++ m ∷ after) ≡ false
is_empty-middle [] m after = refl
is_empty-middle (x ∷ before) m after = refl

numbered_page-forms :
    (before after : List Bytes) (m : Bytes)
    → numbered_page (before ++ m ∷ after)
      ≡ text "<h1>Guest book</h1>"
        ++ (forms_from 0 before
            ++ (form_of (length before) m ++ forms_from (length before + 1) after))
        ++ text "<hr>"
        ++ book_form
unfolding numbered_page
numbered_page-forms before after m =
    rw
      (
        is_empty-middle before m after,
        numbered_from-forms 0 (before ++ m ∷ after),
        forms_from-append 0 (length before) before (m ∷ after) (omega arith),
        numbered_page,
      )
      refl

module _ {ℓ} {R : Type ℓ} (asked : Asked R) where
  numbered_remove_message_lem :
      (before after : List Bytes) (m : Bytes)
      → length (before ++ m ∷ after) ≤ int_max
      → numbered_remove_message asked (to_string (length before) ∷ []) (before ++ m ∷ after)
        ≡ (redirect (text "/") [], before ++ after)
  unfolding numbered_remove_message
  numbered_remove_message_lem before after m fits =
      rw
        (
          from_string-small (length before) (omega (arith, length-append before (m ∷ after))),
          numbered_remove_message,
          (remove_from_lem before after [] m 0 fits (omega arith)).0,
        )
        refl

  -- Of fewer than 2 ^ 31 messages: the page shows each message in a paragraph of its own, in their order,
  -- whose form posts to "/delete/" with the number of the message; and where the router does not take that path for "/" and reads the
  -- number out of it, a POST to it deletes that message, leaves the others as they are and in their order, and
  -- leads back to the page.
  pub forms_delete_their_message :
      (router : RequestRouter R (Unit {0}) (List Bytes) asked) (r : R) (before after : List Bytes)
      (m : Bytes)
      → length (before ++ m ∷ after) ≤ int_max
      → asked.method r ≡ post
      → asked.path r ≡ delete_path (length before)
      → router.match_path (exact (text "/")) (delete_path (length before)) ≡ none
      → router.match_path (rx (text "/delete/(.+)")) (delete_path (length before))
        ≡ some (to_string (length before) ∷ [])
      → (numbered_page (before ++ m ∷ after)
          ≡ text "<h1>Guest book</h1>"
            ++ (forms_from 0 before
                ++ (form_of (length before) m ++ forms_from (length before + 1) after))
            ++ text "<hr>"
            ++ book_form)
        × (router.dispatch
              (numbered_routes asked)
              r
              (record { context = tt; state = before ++ m ∷ after })
            ≡ (redirect (text "/") [], before ++ after))
  unfolding numbered_routes
  forms_delete_their_message router r before after m fits is_post path not_root number =
      let v : Visit (Unit {0}) (List Bytes) = record {
        context = tt;
        state = before ++ m ∷ after;
      } in
      let w : Visit (Unit {0}) (List Bytes) = record { context = tt; state = before ++ after } in
      let off_root = ap (router.match_path (exact (text "/"))) path ∙ not_root in
      (
        numbered_page-forms before after m,
        router.other_path _ _ r v off_root
            ∙ router.other_path _ _ r v off_root
            ∙ router.responds _ _ r v w (to_string (length before) ∷ []) (redirect (text "/") [])
                (ap (router.match_path (rx (text "/delete/(.+)"))) path ∙ number) (rw is_post refl)
                (ap (replies asked) (numbered_remove_message_lem before after m fits)),
      )
