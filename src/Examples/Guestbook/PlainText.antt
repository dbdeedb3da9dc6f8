-- ===== src/Examples/Guestbook/PlainText.antt =====
-- The parts of the page of examples/example_guestbook.cpp: which of them have no character that
-- std::regex_replace would take for more than itself.
use asyncgi.Common.{
  ℕ, zero, suc, ◌+◌, ◌/◌, ◌%◌, ◌≤◌, ◌≡◌, refl, ap, ◌∙◌, inl, inr, Bool, true, false, not, ◌&&◌,
  List, [], ◌∷◌, ◌++◌, arith, leb, ◌==◌, Bool-cases, Bytes, text, length, All, All-append, pos,
}
use asyncgi.Router.Decimal.{digits, to_string}
use asyncgi.Examples.Text.{all_of, Lacks}
use asyncgi.Examples.Regex.{dollar}
use asyncgi.Examples.Vector.{int_max, small-to_int, ge_int}
use asyncgi.Examples.Guestbook.State.{GuestBookMessage}
use asyncgi.Examples.Guestbook.Pages.{
  AccessRole, admin, guest, template_head, template_links, template_messages, make_messages_div,
  make_links_div, messages_from, delete_form,
}

-- Neither a `%`, which begins the placeholders, nor a `$`, which is special in a format.
abbrev pub is_plain : ℕ → Bool
is_plain c = not (c == b'%') && not (c == dollar)

pub record IsPlain (s : Bytes) : Type 0 where
  pub each : All (λ c. is_plain c ≡ true) s

abbrev pub IsPlainMessage : GuestBookMessage → Type 0
IsPlainMessage m = IsPlain m.name × IsPlain m.content

all_of-All : (s : Bytes) → all_of is_plain s ≡ true → All (λ c. is_plain c ≡ true) s
all_of-All [] h = tt
all_of-All (c ∷ s) h = (ground arith, all_of-All s (ground arith))

pub literal-IsPlain : (s : Bytes) → all_of is_plain s ≡ true → IsPlain s
literal-IsPlain s h = record { each = all_of-All s h }

pub All-Lacks : (s : Bytes) → All (λ c. is_plain c ≡ true) s → Lacks b'%' s × Lacks dollar s
All-Lacks [] h = (tt, tt)
All-Lacks (c ∷ s) (h, hs) = let (p, d) = All-Lacks s hs in ((ground arith, p), (ground arith, d))

pub append-IsPlain : (s t : Bytes) → IsPlain s → IsPlain t → IsPlain (s ++ t)
append-IsPlain s t h k = record { each = All-append (λ c. is_plain c ≡ true) s t h.each k.each }

digits-All :
    (fuel n : ℕ) (acc : Bytes)
    → All (λ c. is_plain c ≡ true) acc
    → All (λ c. is_plain c ≡ true) (digits fuel n acc)
unfolding digits
digits-All zero n acc h = h
digits-All (suc fuel) n acc h =
    let digit : is_plain (b'0' + n % 10) ≡ true = ground arith in
    elim (Bool-cases (n / 10 == 0)) [
      | inl last ↦ rw last (digit, h)
      | inr more ↦ rw more (digits-All fuel (n / 10) ((b'0' + n % 10) ∷ acc) (digit, h))
    ]

to_string-IsPlain : (n : ℕ) → IsPlain (to_string n)
unfolding to_string
to_string-IsPlain n = record { each = digits-All (suc n) n [] tt }

-- How messages are shown, from message i on: below each, an administrator sees a form that deletes it.
abbrev pub shown_form : AccessRole → ℕ → Bytes
shown_form guest i = []
shown_form admin i =
    text "<form action=\"/delete/"
    ++ to_string i
    ++ text "\" method=\"post\"> <input value=\"Delete\" type=\"submit\"></form>"

abbrev pub shown_from : AccessRole → ℕ → List GuestBookMessage → Bytes
shown_from role i [] = []
shown_from role i (m ∷ rest) =
    text "<h4>"
    ++ m.name
    ++ text " says:</hr><pre>"
    ++ m.content
    ++ text "</pre>"
    ++ shown_form role i
    ++ shown_from role (i + 1) rest

abbrev pub shown : AccessRole → List GuestBookMessage → Bytes
shown role [] = text "<div>No messages</div>"
shown role (m ∷ rest) = shown_from role 0 (m ∷ rest)

delete_form-shown : (role : AccessRole) (i : ℕ) → delete_form role i ≡ shown_form role i
unfolding delete_form
delete_form-shown guest i = refl
delete_form-shown admin i = refl

messages_from-shown :
    (role : AccessRole) (size i : ℕ) (ms : List GuestBookMessage)
    → i + length ms ≤ size
    → messages_from role (pos size) i ms ≡ shown_from role i ms
unfolding messages_from ge_int
messages_from-shown role size i [] h = refl
messages_from-shown role size i (m ∷ rest) h =
    let inside : leb size i ≡ false = ground arith in
    rw
      (
        inside,
        delete_form-shown role i,
        messages_from-shown role size (i + 1) rest (omega arith),
        messages_from,
      )
      refl

pub make_messages_div-shown :
    (messages : List GuestBookMessage) (role : AccessRole)
    → length messages ≤ int_max
    → make_messages_div messages role ≡ shown role messages
unfolding make_messages_div
make_messages_div-shown [] role fits = refl
make_messages_div-shown (m ∷ rest) role fits =
    ap (λ size. messages_from role size 0 (m ∷ rest)) (small-to_int (length (m ∷ rest)) fits)
    ∙ messages_from-shown role (length (m ∷ rest)) 0 (m ∷ rest) (omega arith)

shown_form-IsPlain : (role : AccessRole) (i : ℕ) → IsPlain (shown_form role i)
shown_form-IsPlain guest i = literal-IsPlain [] refl
shown_form-IsPlain admin i =
    append-IsPlain _ _
      (append-IsPlain _ (to_string i) (literal-IsPlain (text "<form action=\"/delete/") refl)
        (to_string-IsPlain i))
      (literal-IsPlain (text "\" method=\"post\"> <input value=\"Delete\" type=\"submit\"></form>")
        refl)

shown_from-IsPlain :
    (role : AccessRole) (i : ℕ) (ms : List GuestBookMessage)
    → All IsPlainMessage ms
    → IsPlain (shown_from role i ms)
shown_from-IsPlain role i [] h = literal-IsPlain [] refl
shown_from-IsPlain role i (m ∷ rest) ((n, c), hs) =
    let head = append-IsPlain (text "<h4>") m.name (literal-IsPlain (text "<h4>") refl) n in
    let says =
      append-IsPlain _ (text " says:</hr><pre>") head
        (literal-IsPlain (text " says:</hr><pre>") refl) in
    let said = append-IsPlain _ m.content says c in
    let ends = append-IsPlain _ (text "</pre>") said (literal-IsPlain (text "</pre>") refl) in
    append-IsPlain _ (shown_from role (i + 1) rest)
      (append-IsPlain _ _ ends (shown_form-IsPlain role i))
      (shown_from-IsPlain role (i + 1) rest hs)

pub shown-IsPlain :
    (messages : List GuestBookMessage) (role : AccessRole)
    → All IsPlainMessage messages
    → IsPlain (shown role messages)
shown-IsPlain [] role h = literal-IsPlain _ refl
shown-IsPlain (m ∷ rest) role h = shown_from-IsPlain role 0 (m ∷ rest) h

pub template-IsPlain : IsPlain template_head × IsPlain template_links × IsPlain template_messages
unfolding template_head template_links template_messages
template-IsPlain = (
  literal-IsPlain template_head refl,
  literal-IsPlain template_links refl,
  literal-IsPlain template_messages refl,
)

pub make_links_div-IsPlain : (role : AccessRole) → IsPlain (make_links_div role)
unfolding make_links_div
make_links_div-IsPlain admin = literal-IsPlain (make_links_div admin) refl
make_links_div-IsPlain guest = literal-IsPlain (make_links_div guest) refl
