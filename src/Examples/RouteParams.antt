-- ===== src/Examples/RouteParams.antt =====
-- examples/example_route_params.cpp: the guest book of NumberedBook, with the int that whaleroute reads
-- from the path in place of a type with a converter. `int_parameter` is how whaleroute reads it.
use mathlib.Core.Path.{fun_ext}
use asyncgi.Common.{◌≡◌, refl, true, Option, none, some, List, [], ◌∷◌, Bytes, text, ℤ}
use asyncgi.Examples.NumberedBook.{
  numbered_page, numbered_add_message, numbered_remove_message, numbered_routes, replies,
}
use asyncgi.Examples.Numbers.{Conversion, from_string, converted, invalid_argument, out_of_range}
use asyncgi.Examples.Vector.{remove_from}
use asyncgi.Examples.Http.{
  Asked, Response, page, status, status_page, redirect, get, post, same_method,
}
use asyncgi.Examples.Routing.{Route, RequestRouter, Visit, exact, rx, anywhere}

module _ {ℓ} {R : Type ℓ} (asked : Asked R) where
  -- GuestBookRemoveMessage behind the conversion. Where that fails, Router answers with 500.
  unfoldable pub indexed_remove_message :
      (Bytes → Option ℤ) → List Bytes → List Bytes → Response × List Bytes
  unfolding remove_from
  indexed_remove_message int_parameter [] messages = (status 500, messages)
  indexed_remove_message int_parameter (p ∷ rest) messages = elim (int_parameter p) [
    | none ↦ (status 500, messages)
    | some index ↦ (redirect (text "/") [], remove_from index messages)
  ]

  unfoldable pub indexed_routes : (Bytes → Option ℤ) → List (Route R (Unit {0}) (List Bytes))
  unfolding numbered_page numbered_add_message indexed_remove_message
  indexed_routes int_parameter =
      record {
        route_path = exact (text "/");
        matches = λ r c. same_method get (asked.method r);
        process = λ params r v. replies asked (page (numbered_page v.state), v.state);
      }
      ∷ record {
        route_path = exact (text "/");
        matches = λ r c. same_method post (asked.method r);
        process = λ params r v. replies asked (numbered_add_message asked r v.state);
      }
      ∷ record {
        route_path = rx (text "/delete/(.+)");
        matches = λ r c. same_method post (asked.method r);
        process = λ params r v. replies asked (indexed_remove_message int_parameter params v.state);
      }
      ∷ record {
        route_path = anywhere;
        matches = λ r c. true;
        process = λ params r v. replies asked (status_page 404 (text "Page not found"), v.state);
      }
      ∷ []

-- What a conversion gives, without the reason of a failure.
abbrev pub to_option : Conversion → Option ℤ
to_option (converted n) = some n
to_option invalid_argument = none
to_option out_of_range = none

module _ {ℓ} {R : Type ℓ} (asked : Asked R) where
  same_removal :
      (int_parameter : Bytes → Option ℤ)
      → ((s : Bytes) → int_parameter s ≡ to_option (from_string s))
      → (params messages : List Bytes)
      → indexed_remove_message asked int_parameter params messages
        ≡ numbered_remove_message asked params messages
  unfolding indexed_remove_message numbered_remove_message
  same_removal int_parameter agrees [] messages = refl
  same_removal int_parameter agrees (p ∷ rest) messages = by_conversion (from_string p) refl
    where
      by_conversion :
          (c : Conversion)
          → from_string p ≡ c
          → indexed_remove_message asked int_parameter (p ∷ rest) messages
            ≡ numbered_remove_message asked (p ∷ rest) messages
      by_conversion (converted n) e =
          rw (agrees p, e, indexed_remove_message, numbered_remove_message) refl
      by_conversion invalid_argument e =
          rw (agrees p, e, indexed_remove_message, numbered_remove_message) refl
      by_conversion out_of_range e =
          rw (agrees p, e, indexed_remove_message, numbered_remove_message) refl

  -- Where whaleroute reads an int as std::stoi does, and refuses what that refuses, the two programs
  -- answer each request alike and keep the same messages.
  pub same_books :
      (router : RequestRouter R (Unit {0}) (List Bytes) asked) (int_parameter : Bytes → Option ℤ)
      → ((s : Bytes) → int_parameter s ≡ to_option (from_string s))
      → (r : R) (v : Visit (Unit {0}) (List Bytes))
      → router.dispatch (indexed_routes asked int_parameter) r v
        ≡ router.dispatch (numbered_routes asked) r v
  unfolding indexed_routes numbered_routes
  same_books router int_parameter agrees r v =
      let same : indexed_remove_message asked int_parameter ≡ numbered_remove_message asked =
        fun_ext (λ params. fun_ext (same_removal int_parameter agrees params)) in
      rw same refl
