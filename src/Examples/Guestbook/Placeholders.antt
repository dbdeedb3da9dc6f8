-- ===== src/Examples/Guestbook/Placeholders.antt =====
-- The page of examples/example_guestbook.cpp, whose placeholders std::regex_replace fills one after the
-- other.
use asyncgi.Examples.Vector.{int_max}
use asyncgi.Common.{
  ◌≤◌, ◌≡◌, refl, ap, ◌∙◌, none, List, [], ◌∷◌, ◌++◌, append_assoc, Bytes, text, length, All,
}
use asyncgi.Examples.Regex.{regex_replace}
use asyncgi.Examples.Regex.Plain.{substitute, regex_replace-substitute, substitute-Lacks}
use asyncgi.Examples.Guestbook.State.{GuestBookMessage}
use asyncgi.Examples.Guestbook.Pages.{
  AccessRole, template_head, template_links, template_messages, template_form, page_template,
  make_links_div, guest_book_page, put_error,
}
use asyncgi.Examples.Guestbook.PlainText.{
  IsPlain, IsPlainMessage, All-Lacks, template-IsPlain, make_links_div-IsPlain, shown,
  shown-IsPlain, make_messages_div-shown,
}

-- The page with `links` and `messages` where two of its placeholders are.
abbrev pub filled : Bytes → Bytes → Bytes → Bytes
filled links messages error =
    template_head
    ++ (links ++ (template_links ++ (messages ++ (template_messages ++ (error ++ template_form)))))

module _ (pattern format : Bytes) where
  -- A plain text is passed over; the `%` that begins the pattern is not in it.
  passes :
      (s rest rest' : Bytes)
      → IsPlain s
      → substitute (b'%' ∷ pattern) format 0 rest ≡ rest'
      → substitute (b'%' ∷ pattern) format 0 (s ++ rest) ≡ s ++ rest'
  passes s rest rest' h e =
      substitute-Lacks b'%' pattern format s rest (All-Lacks s h.each).0 ∙ ap (λ t. s ++ t) e

-- What each of the three replacements does at the placeholders and at the end of the page.
module _ (format rest rest' : Bytes) where
  messages-links :
      substitute (text "%MESSAGES%") format 0 (template_links ++ rest) ≡ rest'
      → substitute (text "%MESSAGES%") format 0 (text "%LINKS%" ++ (template_links ++ rest))
        ≡ text "%LINKS%" ++ rest'
  unfolding substitute template_links
  messages-links e = ap (λ t. text "%LINKS%" ++ t) e

  messages-messages :
      substitute (text "%MESSAGES%") format 0 rest ≡ rest'
      → substitute (text "%MESSAGES%") format 0 (text "%MESSAGES%" ++ rest) ≡ format ++ rest'
  unfolding substitute
  messages-messages e = ap (λ t. format ++ t) e

  messages-error :
      substitute (text "%MESSAGES%") format 0 (template_form) ≡ rest'
      → substitute (text "%MESSAGES%") format 0 (text "%ERROR_MSG%" ++ (template_form))
        ≡ text "%ERROR_MSG%" ++ rest'
  unfolding substitute template_form
  messages-error e = ap (λ t. text "%ERROR_MSG%" ++ t) e

  links-links :
      substitute (text "%LINKS%") format 0 rest ≡ rest'
      → substitute (text "%LINKS%") format 0 (text "%LINKS%" ++ rest) ≡ format ++ rest'
  unfolding substitute
  links-links e = ap (λ t. format ++ t) e

  links-error :
      substitute (text "%LINKS%") format 0 (template_form) ≡ rest'
      → substitute (text "%LINKS%") format 0 (text "%ERROR_MSG%" ++ (template_form))
        ≡ text "%ERROR_MSG%" ++ rest'
  unfolding substitute template_form
  links-error e = ap (λ t. text "%ERROR_MSG%" ++ t) e

  error-error :
      substitute (text "%ERROR_MSG%") format 0 rest ≡ rest'
      → substitute (text "%ERROR_MSG%") format 0 (text "%ERROR_MSG%" ++ rest) ≡ format ++ rest'
  unfolding substitute
  error-error e = ap (λ t. format ++ t) e

form-stays :
    (format : Bytes)
    → (substitute (text "%MESSAGES%") format 0 template_form ≡ template_form)
      × (substitute (text "%LINKS%") format 0 template_form ≡ template_form)
      × (substitute (text "%ERROR_MSG%") format 0 template_form ≡ template_form)
unfolding substitute template_form
form-stays format = (refl, refl, refl)

page_template-filled :
    page_template ≡ filled (text "%LINKS%") (text "%MESSAGES%") (text "%ERROR_MSG%")
unfolding page_template
page_template-filled = simp append_assoc

messages-filled :
    (messages : Bytes)
    → substitute
        (text "%MESSAGES%")
        messages
        0
        (filled (text "%LINKS%") (text "%MESSAGES%") (text "%ERROR_MSG%"))
      ≡ filled (text "%LINKS%") messages (text "%ERROR_MSG%")
messages-filled messages =
    let (head, links, below) = template-IsPlain in
    passes _ messages template_head _ _ head (
      messages-links messages _ _ (
        passes _ messages template_links _ _ links (
          messages-messages messages _ _ (
            passes _ messages template_messages _ _ below
              (messages-error messages [] _ (form-stays messages).0)))))

links-filled :
    (links messages : Bytes)
    → IsPlain messages
    → substitute (text "%LINKS%") links 0 (filled (text "%LINKS%") messages (text "%ERROR_MSG%"))
      ≡ filled links messages (text "%ERROR_MSG%")
links-filled links messages plain =
    let (head, between, below) = template-IsPlain in
    passes _ links template_head _ _ head (
      links-links links _ _ (
        passes _ links template_links _ _ between (
          passes _ links messages _ _ plain (
            passes _ links template_messages _ _ below
              (links-error links [] _ (form-stays links).1)))))

error-filled :
    (error links messages : Bytes)
    → IsPlain links
    → IsPlain messages
    → substitute (text "%ERROR_MSG%") error 0 (filled links messages (text "%ERROR_MSG%"))
      ≡ filled links messages error
error-filled error links messages plain_links plain =
    let (head, between, below) = template-IsPlain in
    passes _ error template_head _ _ head (
      passes _ error links _ _ plain_links (
        passes _ error template_links _ _ between (
          passes _ error messages _ _ plain (
            passes _ error template_messages _ _ below
              (error-error error _ _ (form-stays error).2)))))

-- Of at most 2 ^ 31 - 1 messages: if no name and no text of them has a `%` or a `$`, the page is the
-- template with the links of the role and all messages, one after the other, in their places, each for
-- an administrator with a form that deletes it, and with nothing where an error would be told: no
-- replacement reaches into what another has put in.
pub plain_page :
    (messages : List GuestBookMessage) (role : AccessRole)
    → length messages ≤ int_max
    → All IsPlainMessage messages
    → guest_book_page none messages role ≡ filled (make_links_div role) (shown role messages) []
unfolding guest_book_page put_error
plain_page messages role fits h =
    let div = shown-IsPlain messages role h in
    let links = make_links_div-IsPlain role in
    let first =
      ap (λ put. regex_replace page_template (text "%MESSAGES%") put)
        (make_messages_div-shown messages role fits)
      ∙ regex_replace-substitute page_template (text "%MESSAGES%") (shown role messages)
          (All-Lacks _ div.each).1
      ∙ ap (substitute (text "%MESSAGES%") (shown role messages) 0) page_template-filled
      ∙ messages-filled (shown role messages) in
    let second =
      ap (λ page. regex_replace page (text "%LINKS%") (make_links_div role)) first
      ∙ regex_replace-substitute _ (text "%LINKS%") (make_links_div role) (All-Lacks _ links.each).1
      ∙ links-filled (make_links_div role) (shown role messages) div in
    ap (λ page. regex_replace page (text "%ERROR_MSG%") []) second
    ∙ regex_replace-substitute _ (text "%ERROR_MSG%") [] tt
    ∙ error-filled [] (make_links_div role) (shown role messages) links div
