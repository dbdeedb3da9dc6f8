-- ===== src/Tests/Samples.antt =====
-- Concrete stand-ins for the libraries that the program calls, and concrete states.
use asyncgi.IoService.Defs.{IoService, wait_signal}
use asyncgi.ClientConnection.Defs.{ClientConnection}
use asyncgi.Connection.Defs.{Connection}
use asyncgi.Net.Outbox.{CloseErrors, empty_outbox}
use asyncgi.Connection.Requests.{HttpResponse}
use asyncgi.Common.{refl, Bool, true, false, none, List, [], ◌∷◌, Bytes}
use asyncgi.Response.Sender.{
  callback_send, callback_disconnect, FcgiResponse, Callback, ResponseSender,
}

-- A response that remembers what was stored in it, and ends the connection when it is sent.
pub record ToyResponse : Type 0 where
  pub valid : Bool
  pub stored : Bytes

abbrev pub toy_send : ToyResponse → ToyResponse × List Callback
toy_send f = (record f { valid = false }, callback_send f.stored ∷ callback_disconnect ∷ [])

abbrev pub toy_fcgi : FcgiResponse ToyResponse
toy_fcgi = record {
  is_valid = λ f. f.valid;
  set_data = λ d f. record f { stored = d };
  set_error_msg = λ m f. f;
  send = toy_send;
  is_valid-set_data = λ d f. refl;
  is_valid-set_error_msg = λ m f. refl;
  is_valid-send = λ f h. refl;
}

-- http::Response, as its CGI text.
abbrev pub toy_http : HttpResponse Bytes
toy_http = record { cgi_data = λ h. h; of_status = λ n. n ∷ [] }

abbrev pub no_errors : CloseErrors
no_errors = record { on_shutdown = none; on_close = none }

abbrev pub new_connection : Connection (Unit {0}) (ResponseSender ToyResponse)
new_connection = record {
  response_context = none;
  next_context = 0;
  fcgi_request = none;
  response_sender = none;
  outbox = empty_outbox;
  calls = [];
}

abbrev pub new_response : ToyResponse
new_response = record { valid = true; stored = [] }

abbrev pub new_client : ClientConnection
new_client = record { outbox = empty_outbox; calls = [] }

-- An IOService of three threads.
abbrev pub three_threads : IoService
three_threads = record {
  io_pool = 0 ∷ 1 ∷ 2 ∷ [];
  io_guard_pool = 0 ∷ 1 ∷ 2 ∷ [];
  io_index = 0;
  thread_pool = [];
  calls = wait_signal ∷ [];
}
