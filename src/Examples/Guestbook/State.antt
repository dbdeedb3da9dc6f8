-- ===== src/Examples/Guestbook/State.antt =====
-- GuestBookState of examples/example_guestbook.cpp. Each of its operations holds the mutex, so that
-- they happen one after the other.
use asyncgi.Examples.Vector.{remove_from}
use asyncgi.Common.{List, [], ◌∷◌, ◌++◌, if◌then◌else◌, Bytes, text, is_empty, ℤ}
use asyncgi.Examples.Regex.{regex_replace}

pub record GuestBookMessage : Type 0 where
  pub name : Bytes
  pub content : Bytes

pub record GuestBookState : Type 0 where
  pub messages : List GuestBookMessage

-- The two calls of std::regex_replace on each text.
unfoldable pub escape : Bytes → Bytes
unfolding regex_replace
escape s = regex_replace (regex_replace s (text "<") (text "&lt;")) (text ">") (text "&gt;")

unfoldable pub add_message : Bytes → Bytes → GuestBookState → GuestBookState
unfolding escape
add_message name msg s =
    let name' = escape name in
    let msg' = escape msg in
    record s {
      messages =
          s.messages
          ++ record { name = if is_empty name' then text "Guest" else name'; content = msg' } ∷ [];
    }

unfoldable pub remove_message : ℤ → GuestBookState → GuestBookState
unfolding remove_from
remove_message index s = record s { messages = remove_from index s.messages }
