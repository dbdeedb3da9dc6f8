-- ===== src/Examples/Guestbook/Pages.antt =====
-- The pages of examples/example_guestbook.cpp.
use asyncgi.Router.Decimal.{to_string}
use asyncgi.Examples.Text.{equal}
use asyncgi.Common.{
  ℕ, ◌+◌, Option, none, some, List, [], ◌∷◌, ◌++◌, if◌then◌else◌, Bytes, text, length, is_empty, ℤ,
  pos,
}
use asyncgi.Examples.Vector.{to_int, ge_int}
use asyncgi.Examples.Regex.{regex_replace}
use asyncgi.Examples.Guestbook.State.{GuestBookMessage}

pub data AccessRole : Type 0 where
  admin : AccessRole
  guest : AccessRole

abbrev pub login_page : Bytes
login_page =
    text "\n"
    ++ text
        "            <head><link rel=\"stylesheet\" href=\"https://cdn.simplecss.org/simple.min.css\"></head>\n"
    ++ text "            <form method=\"post\" enctype=\"multipart/form-data\">\n"
    ++ text "                <label for=\"msg\">Login:</label>\n"
    ++ text "                <input id=\"login\" name=\"login\" value=\"\">\n"
    ++ text "                <label for=\"msg\">Password:</label>\n"
    ++ text "                <input id=\"passwd\" name=\"passwd\" value=\"\">\n"
    ++ text "                <input value=\"Submit\" data-popup=\"true\" type=\"submit\">\n"
    ++ text "            </form>"

-- The raw literal of the page, in the parts that its three placeholders separate.
unfoldable pub template_head : Bytes
template_head =
    text
      "<head><link rel=\"stylesheet\" href=\"https://cdn.simplecss.org/simple.min.css\"></head>\n"
    ++ text
        "                       <div style=\"display:flex; flex-direction: row; justify-content: flex-end\">"

unfoldable pub template_links : Bytes
template_links =
    text "</div>\n"
    ++ text
        "                       <div style=\"display:flex; flex-direction: column; height: calc(100vh - 5em);\">\n"
    ++ text "                           <h1>asyncgi guest book</h1>\n"
    ++ text
        "                           <div style=\"flex: 1; min-height: 0; display:flex; flex-direction: column;\">\n"
    ++ text
        "                               <div style=\"flex:1; overflow-y: auto; row-gap: 60px\">\n"
    ++ text "                                    "

unfoldable pub template_messages : Bytes
template_messages =
    text "\n"
    ++ text "                               </div>\n"
    ++ text "                           </div>\n"
    ++ text "                           <hr>\n"
    ++ text "                           <div>\n"
    ++ text "                                "

unfoldable pub template_form : Bytes
template_form =
    text "\n"
    ++ text
        "                               <form style=\"display:flex; flex-direction: column; width:66%;\" method=\"post\" enctype=\"multipart/form-data\">\n"
    ++ text "                                   <label for=\"name\">Name:</label>\n"
    ++ text
        "                                   <input id=\"name\" name=\"name\" style=\"width:50%\">\n"
    ++ text
        "                                   <textarea style=\"min-height:5em; resize:none;\" name=\"msg\" id=\"msg\" maxlength=\"4192\" autocomplete=\"off\"></textarea>\n"
    ++ text
        "                                   <div style=\"display:flex; flex-direction: row; justify-content: flex-end\">\n"
    ++ text
        "                                      <input value=\"Submit\" data-popup=\"true\" type=\"submit\" style=\"width:33%\"></td>\n"
    ++ text "                                   </div>\n"
    ++ text "                               </form>\n"
    ++ text "                           </div>\n"
    ++ text "                       </div>"

unfoldable pub page_template : Bytes
page_template =
    template_head
    ++ text "%LINKS%"
    ++ template_links
    ++ text "%MESSAGES%"
    ++ template_messages
    ++ text "%ERROR_MSG%"
    ++ template_form

-- What an administrator sees below message i
unfoldable pub delete_form : AccessRole → ℕ → Bytes
delete_form admin i =
    text "<form action=\"/delete/"
    ++ to_string i
    ++ text "\" method=\"post\"> <input value=\"Delete\" type=\"submit\"></form>"
delete_form guest i = []

-- The loop of makeMessagesDiv, from message i on, which ends at `size`.
unfoldable pub messages_from : AccessRole → ℤ → ℕ → List GuestBookMessage → Bytes
unfolding delete_form ge_int
messages_from role size i [] = []
messages_from role size i (m ∷ rest) =
    let later = messages_from role size (i + 1) rest in
    if ge_int (pos i) size
    then []
    else text "<h4>"
      ++ m.name
      ++ text " says:</hr><pre>"
      ++ m.content
      ++ text "</pre>"
      ++ delete_form role i
      ++ later

unfoldable pub make_messages_div : List GuestBookMessage → AccessRole → Bytes
unfolding messages_from to_int
make_messages_div messages role =
    if is_empty messages
    then text "<div>No messages</div>"
    else messages_from role (to_int (length messages)) 0 messages

unfoldable pub make_links_div : AccessRole → Bytes
make_links_div role =
    (elim role [
      | admin ↦ text "<a href=\"/logout\">logout</a>&nbsp;"
      | guest ↦ text "<a href=\"/login\">login</a>&nbsp;"
    ])
    ++ text
        "<a href=\"https://github.com/kamchatka-volcano/asyncgi/blob/master/examples/example_guestbook.cpp\">source</a></div>"

-- The query parameter `error` as the page uses it, where the request has one.
unfoldable pub put_error : Option Bytes → Bytes → Bytes
unfolding regex_replace
put_error none page = regex_replace page (text "%ERROR_MSG%") []
put_error (some error) page =
    let page' =
      if equal error (text "urls_in_msg")
      then regex_replace page (text "%ERROR_MSG%") (text "<mark>Messages can't contain urls</mark>")
      else page in
    if equal error (text "empty_msg")
    then regex_replace page' (text "%ERROR_MSG%") (text "<mark>Messages can't be empty</mark>")
    else page'

unfoldable pub guest_book_page : Option Bytes → List GuestBookMessage → AccessRole → Bytes
unfolding page_template make_messages_div make_links_div put_error regex_replace
guest_book_page error messages role = put_error error (
    regex_replace
      (regex_replace page_template (text "%MESSAGES%") (make_messages_div messages role))
      (text "%LINKS%") (make_links_div role))
