-- ===== src/Connection/Session.antt =====
-- A connection from its first request on, with the socket below it: requests that arrive, user code
-- that answers them at once or later, and writes that complete (src/connection.cpp, src/response.cpp,
-- src/responsesender.cpp).
pub mod Promise
pub mod Log
pub mod Keeps
pub mod Growth
pub mod Stalled
pub mod Faults
pub mod Stopped
pub mod Failing
pub mod Safety
pub mod Handlers
pub mod Refinement
pub mod Pages
pub mod Liveness
use asyncgi.Response.Processor.{FastcgiResponse, RequestProcessor}
use asyncgi.Connection.Requests.{HttpResponse, process_request, responder_send_fastcgi}
use asyncgi.Response.Sender.{FcgiResponse, ResponseSender}
use asyncgi.Connection.Defs.{Connection, on_bytes_written, on_read, fresh}
use asyncgi.Net.Outbox.{
  Call, CloseErrors, empty_outbox, writes_of, closes, async_write, async_read_some, async_connect,
  shutdown_socket, close_socket, event,
}
use asyncgi.Common.{
  ℕ, ◌+◌, ◌-◌, ◌<◌, ◌≡◌, ◌⊎◌, Bool, true, not, ◌&&◌, none, List, [], ◌∷◌, ◌++◌, ltb, if◌then◌else◌,
  Bytes, length, take,
}

-- What happens to a connection: data is read that ends some requests, each with the fcgi::Response for
-- it; user code sends with a Responder that it has kept, to the context of a number; a write completes.
pub data Event {ℓ} (Q F : Type ℓ) : Type ℓ where
  reads : CloseErrors → List (Q × F) → Event Q F
  sends_late : CloseErrors → ℕ → FastcgiResponse → Event Q F
  completes : CloseErrors → List ℕ → ℕ → List ℕ → Event Q F

-- The connection, the writes that asio has been given and has not completed, and what has reached the
-- peer; whether the socket is open, which close() ends; and how many of those writes, the first ones,
-- asio was given while it was.
pub record Session {ℓ} (Q F : Type ℓ) : Type ℓ where
  pub conn : Connection Q (ResponseSender F)
  pub in_flight : List ℕ
  pub wire : Bytes
  pub is_open : Bool
  pub alive : ℕ

-- The writes that some calls start before one closes the socket
abbrev pub writes_before_close : List Call → List ℕ
writes_before_close [] = []
writes_before_close (async_write n ∷ cs) = n ∷ writes_before_close cs
writes_before_close (async_read_some ∷ cs) = writes_before_close cs
writes_before_close (async_connect ∷ cs) = writes_before_close cs
writes_before_close (shutdown_socket ∷ cs) = writes_before_close cs
writes_before_close (close_socket ∷ cs) = []
writes_before_close (event e m ∷ cs) = writes_before_close cs

module _ {ℓ} {Q F : Type ℓ} where
  -- The constructor of Connection
  abbrev pub initial_connection : Connection Q (ResponseSender F)
  initial_connection = record {
    response_context = none;
    next_context = 0;
    fcgi_request = none;
    response_sender = none;
    outbox = empty_outbox;
    calls = [];
  }

  abbrev pub accepted : Session Q F
  accepted = record {
    conn = initial_connection;
    in_flight = [];
    wire = [];
    is_open = true;
    alive = 0;
  }

  -- The writes that a handler starts join those that are under way.
  abbrev pub react : Connection Q (ResponseSender F) → Session Q F → Session Q F
  react c s = record s {
    conn = c;
    in_flight = s.in_flight ++ writes_of c.calls;
    is_open = s.is_open && not (closes c.calls);
    alive = if s.is_open then s.alive + length (writes_before_close c.calls) else s.alive;
  }

  -- The write between `xs` and `ys` has ended; `d` has reached the peer.
  abbrev pub ended : List ℕ → List ℕ → Bytes → Session Q F → Session Q F
  ended xs ys d s = record s {
    in_flight = xs ++ ys;
    wire = s.wire ++ d;
    alive = if ltb (length xs) s.alive then s.alive - 1 else s.alive;
  }

module _ {ℓ} {Q F H A : Type ℓ} (fcgi : FcgiResponse F) (http : HttpResponse H)
    (make_request : Q → A) (processor : RequestProcessor A H) where
  -- What receiveData of fcgi_responder calls for data that ends some requests
  abbrev pub process_requests :
      CloseErrors → List (Q × F) → Connection Q (ResponseSender F) → Connection Q (ResponseSender F)
  process_requests e [] c = c
  process_requests e ((q, f) ∷ rest) c =
      process_requests e rest (process_request fcgi http make_request processor e q f c)

  abbrev pub AllValid : List (Q × F) → Type 0
  AllValid [] = Unit
  AllValid ((q, f) ∷ rest) = (fcgi.is_valid f ≡ true) × AllValid rest

  unfoldable pub happens : Event Q F → Session Q F → Session Q F
  unfolding responder_send_fastcgi on_bytes_written
  happens (reads e rs) s = react (on_read (λ d. process_requests e rs) e none [] (fresh s.conn)) s
  happens (sends_late e id r) s = react (responder_send_fastcgi fcgi http e id r (fresh s.conn)) s
  happens (completes e xs n ys) s =
      react (on_bytes_written e n (fresh s.conn))
        (ended xs ys (take n s.conn.outbox.write_buffer) s)

  -- A new response is valid, and a write that completes without an error is under way and was started
  -- before the socket was closed, or is empty: asio writes nothing then, and does not ask the socket.
  abbrev pub CanHappen : Event Q F → Session Q F → Type 0
  CanHappen (reads e rs) s = AllValid rs
  CanHappen (sends_late e id r) s = Unit
  CanHappen (completes e xs n ys) s =
      (s.in_flight ≡ xs ++ n ∷ ys) × ((n ≡ 0) ⊎ (length xs < s.alive))

  abbrev pub all_happen : List (Event Q F) → Session Q F → Session Q F
  all_happen [] s = s
  all_happen (ev ∷ rest) s = all_happen rest (happens ev s)

  abbrev pub AllCanHappen : List (Event Q F) → Session Q F → Type 0
  AllCanHappen [] s = Unit
  AllCanHappen (ev ∷ rest) s = CanHappen ev s × AllCanHappen rest (happens ev s)
