-- ===== src/Examples/Guestbook/Access.antt =====
-- Who may delete messages of the guest book of examples/example_guestbook.cpp.
use asyncgi.Common.{
  ◌≤◌, ◌≡◌, refl, sym, ap, ◌∙◌, ◌≢◌, inl, inr, Bool, true, false, ◌&&◌, ◌||◌, Option, none, some,
  List, [], ◌∷◌, ◌++◌, append-nil, append_assoc, arith, Bool-cases, Bytes, text, length, All, ℤ,
  pos,
}
use asyncgi.Examples.Http.{Asked, Response, redirect, post}
use asyncgi.Examples.Text.{equal, all_of, is_space, contains}
use asyncgi.Examples.Routing.{RequestRouter, dispatch-All, Visit, rx, exact}
use asyncgi.Examples.Vector.{remove_from_lem, int_max}
use asyncgi.Examples.Guestbook.State.{GuestBookState, GuestBookMessage, add_message, remove_message}
use asyncgi.Examples.Guestbook.Pages.{admin, guest}
use asyncgi.Examples.Guestbook.Handlers.{
  RouteContext, new_context, routes, post_message, delete_message, authorize_admin, match_role,
  match_method, answers,
}
use asyncgi.Examples.Guestbook.Escaping.{serve}

-- The messages of `t` are those of `s` with more behind them.
abbrev pub Extends : GuestBookState → GuestBookState → Type 0
Extends s t = (extra : List GuestBookMessage) × (t.messages ≡ s.messages ++ extra)

Extends-append :
    (s t : GuestBookState) (more : List GuestBookMessage)
    → Extends s t
    → Extends s (record t { messages = t.messages ++ more })
Extends-append s t more (extra, e) = (extra ++ more, rw e (append_assoc s.messages extra more))

Extends-trans : (s t u : GuestBookState) → Extends s t → Extends t u → Extends s u
Extends-trans s t u (a, e) (b, f) = (a ++ b, f ∙ rw e (append_assoc s.messages a b))

module _ {ℓ} {R : Type ℓ} (asked : Asked R) where
  abbrev pub has_secret : R → Bool
  has_secret r = equal (asked.cookie (text "admin_id") r) (text "ADMIN_SECRET")

  post_message-Extends :
      (r : R) (s t : GuestBookState) → Extends s t → Extends s (post_message asked r t).1
  unfolding post_message add_message
  post_message-Extends r s t h =
      elim (Bool-cases (all_of is_space (asked.form_field (text "msg") r))) [
        | inl blank ↦ rw (blank, post_message) h
        | inr said ↦
            elim (Bool-cases (
              contains (text "http://") (asked.form_field (text "msg") r)
              || contains (text "https://") (asked.form_field (text "msg") r))) [
                | inl url ↦ rw (said, url, post_message) h
                | inr fine ↦ rw (said, fine, post_message) (Extends-append s t _ h)
              ]
      ]

  not_admin : (b : Bool) (c : RouteContext) → c.role ≡ guest → (b && match_role admin c) ≢ true
  unfolding match_role
  not_admin b c h e = ground arith

  -- Of a request without the secret: its role stays the guest's, and messages are only added.
  abbrev AsGuest : GuestBookState → Visit RouteContext GuestBookState → Type 0
  AsGuest s v = (v.context.role ≡ guest) × Extends s v.state

  dispatch-Extends :
      (router : RequestRouter R RouteContext GuestBookState asked)
      (int_parameter : Bytes → Option ℤ) (r : R) (s : GuestBookState)
      → has_secret r ≡ false
      → Extends s
          (router.dispatch
            (routes asked int_parameter)
            r
            (record { context = new_context; state = s })).1
  unfolding routes authorize_admin match_role
  dispatch-Extends router int_parameter r s h =
      (dispatch-All router (AsGuest s) (routes asked int_parameter) r
        (record { context = new_context; state = s })
        (
          λ params v m k. rw h k,
          (
            λ params v m k. k,
            (
              λ params v m k. (k.0, post_message-Extends r s v.state k.1),
              (
                λ params v m k. absurd (not_admin (match_method asked post r) v.context k.0 m),
                (
                  λ params v m k. k,
                  (
                    λ params v m k. k,
                    (λ params v m k. k, (λ params v m k. k, (λ params v m k. k, tt))),
                  ),
                ),
              ),
            ),
          ),
        )
        (refl, ([], sym (append-nil s.messages)))).1.1

  -- Whatever requests without the secret in their cookie the guest book gets: every message that it
  -- had is still there, in its place and as it was, and messages are only added behind them.
  pub guests_cannot_delete :
      (router : RequestRouter R RouteContext GuestBookState asked)
      (int_parameter : Bytes → Option ℤ) (requests : List R) (s : GuestBookState)
      → All (λ r. has_secret r ≡ false) requests
      → Extends s (serve asked router int_parameter requests s)
  guests_cannot_delete router int_parameter [] s h = ([], sym (append-nil s.messages))
  guests_cannot_delete router int_parameter (r ∷ rest) s (h, hs) =
      Extends-trans s _ _ (dispatch-Extends router int_parameter r s h)
        (guests_cannot_delete router int_parameter rest _ hs)

  delete_message_lem :
      (int_parameter : Bytes → Option ℤ) (parameter : Bytes) (before after : List GuestBookMessage)
      (m : GuestBookMessage)
      → int_parameter parameter ≡ some (pos (length before))
      → length (before ++ m ∷ after) ≤ int_max
      → delete_message asked int_parameter
          (parameter ∷ [])
          (record { messages = before ++ m ∷ after })
        ≡ (redirect (text "/") [], record { messages = before ++ after })
  unfolding delete_message remove_message
  delete_message_lem int_parameter parameter before after m index fits =
      rw (index, delete_message, (remove_from_lem before after [] m 0 fits (omega arith)).0) refl

  -- A POST with the secret in its cookie, to a path that does not fit "/" and fits "/delete/(.+)" with a
  -- parameter that is read as the index of a message of fewer than 2 ^ 31: that message is deleted, the others stay as
  -- they are and in their order, and the answer leads back to the page.
  pub admins_delete :
      (router : RequestRouter R RouteContext GuestBookState asked)
      (int_parameter : Bytes → Option ℤ) (r : R) (parameter : Bytes) (all : List Bytes)
      (before after : List GuestBookMessage) (m : GuestBookMessage)
      → has_secret r ≡ true
      → asked.method r ≡ post
      → router.match_path (rx (text ".*")) (asked.path r) ≡ some all
      → router.match_path (exact (text "/")) (asked.path r) ≡ none
      → router.match_path (rx (text "/delete/(.+)")) (asked.path r) ≡ some (parameter ∷ [])
      → int_parameter parameter ≡ some (pos (length before))
      → length (before ++ m ∷ after) ≤ int_max
      → router.dispatch
          (routes asked int_parameter)
          r
          (record { context = new_context; state = record { messages = before ++ m ∷ after } })
        ≡ (redirect (text "/") [], record { messages = before ++ after })
  unfolding routes authorize_admin match_role match_method
  admins_delete router int_parameter r parameter all before after m secret is_post everything
        not_root deletes index fits =
      let v : Visit RouteContext GuestBookState = record {
        context = record { role = admin };
        state = record { messages = before ++ m ∷ after };
      } in
      let w : Visit RouteContext GuestBookState = record {
        context = record { role = admin };
        state = record { messages = before ++ after };
      } in
      router.no_response _ _ r _ v all everything refl (rw secret refl)
      ∙ router.other_path _ _ r v not_root
      ∙ router.other_path _ _ r v not_root
      ∙ router.responds _ _ r v w (parameter ∷ []) (redirect (text "/") []) deletes
          (rw is_post refl)
          (ap (λ (out : Response × GuestBookState). answers asked out (record { role = admin }))
            (delete_message_lem int_parameter parameter before after m index fits))
