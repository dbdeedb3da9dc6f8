-- ===== src/ClientConnection/Failures.antt =====
-- What a ClientConnection does after a failed write.
use asyncgi.Events.{AsioError, socket_write_error}
use asyncgi.Net.Outbox.{CloseErrors, event}
use asyncgi.Common.{ℕ, ◌≡◌, refl, ◌∙◌, ◌≢◌, some, List, [], ◌∷◌, arith, Bytes}
use asyncgi.ClientConnection.Defs.{ClientConnection, on_write, send_data, disconnect, fresh}

-- Calls of sendData and disconnect, in their order.
pub data Use : Type 0 where
  sends_data : Bytes → Use
  disconnects_it : Use

unfoldable pub uses : CloseErrors → List Use → ClientConnection → ClientConnection
uses e [] c = c
uses e (sends_data d ∷ rest) c = uses e rest (send_data d c)
uses e (disconnects_it ∷ rest) c = uses e rest (disconnect e c)

uses-stalled :
    (e : CloseErrors) (later : List Use) (c : ClientConnection)
    → c.outbox.bytes_to_write ≢ 0
    → (uses e later c).calls ≡ c.calls
unfolding uses send_data disconnect
uses-stalled e [] c busy = refl
uses-stalled e (sends_data d ∷ rest) c busy =
    uses-stalled e rest (send_data d c) (λ idle. busy (ground arith)) ∙ ground arith
uses-stalled e (disconnects_it ∷ rest) c busy =
    uses-stalled e rest (disconnect e c) (λ idle. busy (ground arith)) ∙ ground arith

-- If a write fails while bytes are counted as under way, the ClientConnection reports the error, and
-- does not close the socket; and however sendData and disconnect() are called after that, they make
-- no call on the socket: nothing is written any more, and disconnect() does not close it.
pub write_error_stalls :
    (e : CloseErrors) (error : AsioError) (n : ℕ) (later : List Use) (c : ClientConnection)
    → c.outbox.bytes_to_write ≢ 0
    → (uses e later (on_write e (some error) n (fresh c))).calls
      ≡ event socket_write_error error.message ∷ []
unfolding on_write
write_error_stalls e error n later c busy = uses-stalled e later _ busy
