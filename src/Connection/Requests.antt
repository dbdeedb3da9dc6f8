-- ===== src/Connection/Requests.antt =====
-- Requests on a connection: Connection::processRequest, and the Responder that user code holds
-- (src/connection.cpp, src/response.cpp, src/responsecontext.cpp).
-- What the program uses of http::Response.
use asyncgi.Events.{request_processing_error}
use asyncgi.Connection.Defs.{Connection, issue, send_data, disconnect}
use asyncgi.Net.Outbox.{CloseErrors, event}
use asyncgi.Response.Processor.{
  Thrown, RequestProcessor, FastcgiResponse, std_exception, Script, Ending, threw, done, invoke,
  send_http, send_fastcgi, ask_sent, returned, unknown,
}
use asyncgi.Response.Sender.{
  FcgiResponse, Callback, ResponseSender, send, is_sent, callback_send, send_with_error,
  callback_disconnect,
}
use asyncgi.Common.{
  ℕ, ◌+◌, Bool, true, Option, none, some, List, [], ◌∷◌, ◌==◌, if◌then◌else◌, Bytes, text,
}

pub record HttpResponse {ℓ} (H : Type ℓ) : Type ℓ where
  -- data(http::ResponseMode::Cgi)
  pub cgi_data : H → Bytes
  -- http::Response{http::ResponseStatus}
  pub of_status : ℕ → H

-- What the message of the RequestProcessingError event is.
unfoldable pub what : Thrown → Bytes
what (std_exception message) = message
what unknown = text "Unknown error"

module _ {ℓ} {Q F H : Type ℓ} (fcgi : FcgiResponse F) (http : HttpResponse H) where
  unfoldable pub run_callbacks :
      CloseErrors
      → List Callback
      → Connection Q (ResponseSender F)
      → Connection Q (ResponseSender F)
  run_callbacks e [] c = c
  run_callbacks e (callback_send d ∷ rest) c = run_callbacks e rest (send_data d c)
  run_callbacks e (callback_disconnect ∷ rest) c = run_callbacks e rest (disconnect e c)

  -- responseContext_.lock()->responseSender(): a context is alive while the connection holds it, and
  -- refers to the connection's own sender.
  unfoldable pub lock : ℕ → Connection Q (ResponseSender F) → Option (ResponseSender F)
  lock id c = elim c.response_context [
    | none ↦ none
    | some alive ↦ if alive == id then c.response_sender else none
  ]

  -- The sender keeps its new state, and the connection does what fcgi::Response::send() called.
  unfoldable pub sent :
      CloseErrors
      → ResponseSender F × List Callback
      → Connection Q (ResponseSender F)
      → Connection Q (ResponseSender F)
  unfolding run_callbacks
  sent e (s, callbacks) c = run_callbacks e callbacks (record c { response_sender = some s })

  -- Responder::send of a fastcgi::Response
  unfoldable pub responder_send_fastcgi :
      CloseErrors
      → ℕ
      → FastcgiResponse
      → Connection Q (ResponseSender F)
      → Connection Q (ResponseSender F)
  unfolding lock sent
  responder_send_fastcgi e id r c = elim (lock id c) [
    | none ↦ c
    | some s ↦ sent e (send_with_error fcgi r.response_data r.error_msg s) c
  ]

  -- Responder::send of an http::Response
  unfoldable pub responder_send_http :
      CloseErrors → ℕ → H → Connection Q (ResponseSender F) → Connection Q (ResponseSender F)
  unfolding lock sent
  responder_send_http e id h c = elim (lock id c) [
    | none ↦ c
    | some s ↦ sent e (send fcgi (http.cgi_data h) s) c
  ]

  unfoldable pub responder_is_sent : ℕ → Connection Q (ResponseSender F) → Bool
  unfolding lock
  responder_is_sent id c = elim (lock id c) [ none ↦ true | some s ↦ is_sent fcgi s ]

  -- User code runs, and ends in one of its ways.
  unfoldable pub run :
      CloseErrors
      → ℕ
      → Script H
      → Connection Q (ResponseSender F)
      → Ending × Connection Q (ResponseSender F)
  run e id (done ending) c = (ending, c)
  run e id (send_http h rest) c = run e id rest (responder_send_http e id h c)
  run e id (send_fastcgi r rest) c = run e id rest (responder_send_fastcgi e id r c)
  run e id (ask_sent rest) c = run e id (rest (responder_is_sent id c)) c

  -- The two handlers of processRequest.
  unfoldable pub handle :
      CloseErrors → ℕ → Ending × Connection Q (ResponseSender F) → Connection Q (ResponseSender F)
  unfolding what
  handle e id (returned, c) = c
  handle e id (threw t, c) =
      issue (event request_processing_error (what t))
        (responder_send_http e id (http.of_status 500) c)

  -- Each request has a context of its own: it takes the place of the one before it.
  unfoldable pub begin_request :
      Q → F → Connection Q (ResponseSender F) → Connection Q (ResponseSender F)
  begin_request q f c = record c {
    fcgi_request = some q;
    response_sender = some (record { response = f });
    response_context = some c.next_context;
    next_context = c.next_context + 1;
  }

  -- `make_request` is the constructor of asyncgi::Request.
  unfoldable pub process_request {κ} :
      {A : Type κ}
      → (Q → A)
      → RequestProcessor A H
      → CloseErrors
      → Q
      → F
      → Connection Q (ResponseSender F)
      → Connection Q (ResponseSender F)
  process_request make_request processor e q f c =
      handle e c.next_context
        (run e c.next_context (invoke processor (make_request q)) (begin_request q f c))
