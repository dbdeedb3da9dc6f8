-- ===== src/Examples/Guestbook/Escaping.antt =====
-- What the guest book of examples/example_guestbook.cpp stores.
use mathlib.Core.List.{flat_map}
use asyncgi.Common.{
  ℕ, zero, suc, ◌≡◌, refl, ◌≢◌, inl, inr, Option, List, [], ◌∷◌, arith, if◌then◌else◌, Option-cases,
  Bytes, text, is_empty, All, All-append, ℤ, pos, negsuc,
}
use asyncgi.Examples.Http.{Asked}
use asyncgi.Examples.Text.{Lacks, flat_map-All}
use asyncgi.Examples.Regex.{regex_replace-flat_map, replace_char}
use asyncgi.Examples.Routing.{RequestRouter, dispatch-All}
use asyncgi.Examples.Vector.{erase, remove_from}
use asyncgi.Examples.Guestbook.State.{
  GuestBookState, GuestBookMessage, add_message, remove_message, escape,
}
use asyncgi.Examples.Guestbook.Handlers.{
  RouteContext, new_context, routes, post_message, delete_message,
}

-- No character of it begins or ends a tag.
abbrev pub IsTagless : Bytes → Type 0
IsTagless s = Lacks b'<' s × Lacks b'>' s

abbrev pub IsEscaped : GuestBookMessage → Type 0
IsEscaped m = IsTagless m.name × IsTagless m.content × (m.name ≢ [])

flat_map-always {ℓ κ μ} :
    {A : Type ℓ} {B : Type κ} (P : B → Type μ) (f : A → List B)
    → ((a : A) → All P (f a))
    → (xs : List A) → All P (flat_map f xs)
unfolding flat_map
flat_map-always P f each [] = tt
flat_map-always P f each (x ∷ xs) =
    All-append P (f x) (flat_map f xs) (each x) (flat_map-always P f each xs)

escape-flat_map :
    (s : Bytes)
    → escape s
      ≡ flat_map (replace_char b'>' (text "&gt;")) (flat_map (replace_char b'<' (text "&lt;")) s)
unfolding escape
escape-flat_map s =
    rw
      (
        regex_replace-flat_map s b'<' (text "&lt;") (omega arith),
        regex_replace-flat_map _ b'>' (text "&gt;") (omega arith),
      )
      refl

escape-IsTagless : (s : Bytes) → IsTagless (escape s)
escape-IsTagless s =
    let no_lt =
      flat_map-always (λ c. c ≢ b'<') (replace_char b'<' (text "&lt;")) (λ c. ground arith) s in
    rw escape-flat_map (
      flat_map-All (λ c. c ≢ b'<') (replace_char b'>' (text "&gt;")) (λ c. c ≢ b'<')
          (λ c h. ground arith) _ no_lt,
      flat_map-always (λ c. c ≢ b'>') (replace_char b'>' (text "&gt;")) (λ c. ground arith) _,
    )

named-IsTagless :
    (s : Bytes)
    → IsTagless s
    → IsTagless (if is_empty s then text "Guest" else s)
      × ((if is_empty s then text "Guest" else s) ≢ [])
named-IsTagless [] h = (omega arith, ground arith)
named-IsTagless (c ∷ s) h = (h, ground arith)

add_message-IsEscaped :
    (name msg : Bytes) (s : GuestBookState)
    → All IsEscaped s.messages
    → All IsEscaped (add_message name msg s).messages
unfolding add_message
add_message-IsEscaped name msg s h =
    let named = named-IsTagless (escape name) (escape-IsTagless name) in
    All-append IsEscaped s.messages _ h ((named.0, escape-IsTagless msg, named.1), tt)

erase-All {ℓ κ} :
    {A : Type ℓ} (P : A → Type κ) (i : ℕ) (xs : List A) → All P xs → All P (erase i xs)
erase-All P i [] h = tt
erase-All P zero (x ∷ xs) h = h.1
erase-All P (suc i) (x ∷ xs) h = (h.0, erase-All P i xs h.1)

pub remove_from-All {ℓ κ} :
    {A : Type ℓ} (P : A → Type κ) (index : ℤ) (xs : List A)
    → All P xs
    → All P (remove_from index xs)
unfolding remove_from
remove_from-All P (negsuc n) xs h = h
remove_from-All P (pos i) xs h = ground (arith, erase-All P i xs h)

abbrev pub AllEscaped : GuestBookState → Type 0
AllEscaped s = All IsEscaped s.messages

module _ {ℓ} {R : Type ℓ} (asked : Asked R) where
  post_message-AllEscaped :
      (r : R) (s : GuestBookState) → AllEscaped s → AllEscaped (post_message asked r s).1
  unfolding post_message
  post_message-AllEscaped r s h = ground (
    arith,
    add_message-IsEscaped (asked.form_field (text "name") r) (asked.form_field (text "msg") r) s h,
  )

  delete_message-AllEscaped :
      (int_parameter : Bytes → Option ℤ) (params : List Bytes) (s : GuestBookState)
      → AllEscaped s
      → AllEscaped (delete_message asked int_parameter params s).1
  unfolding delete_message remove_message
  delete_message-AllEscaped int_parameter [] s h = h
  delete_message-AllEscaped int_parameter (p ∷ rest) s h = elim (Option-cases (int_parameter p)) [
    | inl e ↦ rw (e, delete_message) h
    | inr (index, e) ↦ rw (e, delete_message) (remove_from-All IsEscaped index s.messages h)
  ]

  -- The requests that a server with these routes gets, one after the other.
  abbrev pub serve :
      RequestRouter R RouteContext GuestBookState asked
      → (Bytes → Option ℤ)
      → List R
      → GuestBookState
      → GuestBookState
  serve router int_parameter [] s = s
  serve router int_parameter (r ∷ rest) s =
      serve router int_parameter rest
        (router.dispatch (routes asked int_parameter) r
          (record { context = new_context; state = s })).1

  dispatch-AllEscaped :
      (router : RequestRouter R RouteContext GuestBookState asked)
      (int_parameter : Bytes → Option ℤ) (r : R) (s : GuestBookState)
      → AllEscaped s
      → AllEscaped
          (router.dispatch
            (routes asked int_parameter)
            r
            (record { context = new_context; state = s })).1
  unfolding routes
  dispatch-AllEscaped router int_parameter r s h =
      (dispatch-All router (λ v. AllEscaped v.state) (routes asked int_parameter) r
        (record { context = new_context; state = s })
        (
          λ params v m k. k,
          (
            λ params v m k. k,
            (
              λ params v m k. post_message-AllEscaped r v.state k,
              (
                λ params v m k. delete_message-AllEscaped int_parameter params v.state k,
                (
                  λ params v m k. k,
                  (
                    λ params v m k. k,
                    (λ params v m k. k, (λ params v m k. k, (λ params v m k. k, tt))),
                  ),
                ),
              ),
            ),
          ),
        )
        h).1

  -- Whatever requests the guest book gets, with whatever names, texts, cookies and paths: no name and
  -- no text that it stores has a character that begins or ends an HTML tag, and no name is empty.
  pub messages_are_escaped :
      (router : RequestRouter R RouteContext GuestBookState asked)
      (int_parameter : Bytes → Option ℤ) (requests : List R)
      → AllEscaped (serve router int_parameter requests (record { messages = [] }))
  messages_are_escaped router int_parameter requests = served requests (record { messages = [] }) tt
    where
      served :
          (requests : List R) (s : GuestBookState)
          → AllEscaped s
          → AllEscaped (serve router int_parameter requests s)
      served [] s h = h
      served (r ∷ rest) s h = served rest _ (dispatch-AllEscaped router int_parameter r s h)
