-- ===== src/Router/Overrides.antt =====
-- What Router overrides of whaleroute's RequestRouter, and how it sends what a route's processor
-- returns (include/asyncgi/router.h). The router's event handler is a copy of that of its IO, whose
-- calls are in the log of the connection.
use asyncgi.Net.Outbox.{CloseErrors, event}
use asyncgi.Connection.Defs.{Connection, issue}
use asyncgi.Connection.Requests.{
  HttpResponse, responder_send_http, responder_is_sent, responder_send_fastcgi,
}
use asyncgi.Response.Processor.{FastcgiResponse}
use asyncgi.Router.Decimal.{to_string}
use asyncgi.Request.View.{FcgiRequest, RequestView, Request, ask, path}
use asyncgi.Response.Sender.{FcgiResponse, ResponseSender}
use asyncgi.Common.{ℕ, Bool, Option, none, some, ◌++◌, Bytes, text}
use asyncgi.Events.{route_parameters_error}

-- whaleroute::RouteParameterError
pub data RouteParameterError : Type 0 where
  count_mismatch : ℕ → ℕ → RouteParameterError
  read_error : ℕ → Bytes → RouteParameterError

unfoldable pub error_message : RouteParameterError → Bytes
error_message (count_mismatch expected actual) =
    text "RouteParameterError: Parameter count mismatch, expected: "
    ++ to_string expected
    ++ text ", actual:"
    ++ to_string actual
error_message (read_error index value) =
    text "RouteParameterError: Couldn't read parameter#"
    ++ to_string index
    ++ text ", value:"
    ++ value

-- A response that a Responder sends.
pub data AnyResponse {ℓ} (H : Type ℓ) : Type ℓ where
  http_response : H → AnyResponse H
  fastcgi_response : FastcgiResponse → AnyResponse H

-- What a route's processor may return to be sent: a response, or an optional one.
pub data RouteResponse {ℓ} (H : Type ℓ) : Type ℓ where
  plain_response : AnyResponse H → RouteResponse H
  optional_response : Option (AnyResponse H) → RouteResponse H

-- The path that the routes are matched against; asking for it makes the view of the request.
unfoldable pub get_request_path {ℓ} :
    {Q V : Type ℓ} → FcgiRequest Q → RequestView V → Request Q V → Bytes × Request Q V
unfolding ask
get_request_path fcgi view request = path fcgi view request

module _ {ℓ} {Q F H : Type ℓ} (fcgi : FcgiResponse F) (http : HttpResponse H) where
  unfoldable pub send_any :
      CloseErrors
      → ℕ
      → AnyResponse H
      → Connection Q (ResponseSender F)
      → Connection Q (ResponseSender F)
  send_any e id (http_response h) c = responder_send_http fcgi http e id h c
  send_any e id (fastcgi_response r) c = responder_send_fastcgi fcgi http e id r c

  -- detail::ResponseSender
  unfoldable pub send_response :
      CloseErrors
      → ℕ
      → RouteResponse H
      → Connection Q (ResponseSender F)
      → Connection Q (ResponseSender F)
  unfolding send_any
  send_response e id (plain_response r) c = send_any e id r c
  send_response e id (optional_response none) c = c
  send_response e id (optional_response (some r)) c = send_any e id r c

  -- The same for several values: Responder::send makes a response of them.
  unfoldable pub send_response_of {κ} :
      {A : Type κ}
      → (A → H)
      → CloseErrors
      → ℕ
      → A
      → Connection Q (ResponseSender F)
      → Connection Q (ResponseSender F)
  send_response_of make_response e id values c =
      responder_send_http fcgi http e id (make_response values) c

  unfoldable pub process_unmatched_request :
      CloseErrors → ℕ → Connection Q (ResponseSender F) → Connection Q (ResponseSender F)
  process_unmatched_request e id c = responder_send_http fcgi http e id (http.of_status 404) c

  unfoldable pub is_route_processing_finished : ℕ → Connection Q (ResponseSender F) → Bool
  is_route_processing_finished id c = responder_is_sent fcgi http id c

  unfoldable pub on_route_parameters_error :
      CloseErrors
      → ℕ
      → RouteParameterError
      → Connection Q (ResponseSender F)
      → Connection Q (ResponseSender F)
  on_route_parameters_error e id error c =
      responder_send_http fcgi http e id (http.of_status 500)
        (issue (event route_parameters_error (error_message error)) c)
