-- ===== src/Router/Fallbacks.antt =====
-- The router's own responses and what whaleroute asks after them (include/asyncgi/router.h).
use asyncgi.Response.Processor.{FastcgiResponse}
use asyncgi.Events.{route_parameters_error}
use asyncgi.Connection.Answers.{
  IsCurrent, ask-IsCurrent, answer, send_http-send_fastcgi, send-IsCurrent, send_again,
}
use asyncgi.Connection.Defs.{Connection, issue}
use asyncgi.Net.Outbox.{CloseErrors, event}
use asyncgi.Connection.Requests.{HttpResponse, lock, responder_is_sent, responder_send_http}
use asyncgi.Response.Sender.{FcgiResponse, ResponseSender}
use asyncgi.Common.{ℕ, ◌≡◌, refl, ◌∙◌, Bool, true, ◌||◌, Option, none, some, [], arith, is_some}
use asyncgi.Router.Overrides.{
  AnyResponse, http_response, fastcgi_response, RouteResponse, plain_response, optional_response,
  send_any, is_route_processing_finished, process_unmatched_request, RouteParameterError,
  on_route_parameters_error, send_response, error_message,
}

module _ {ℓ} {H : Type ℓ} (http : HttpResponse H) where
  -- What a response has for the fcgi::Response.
  abbrev pub carried : AnyResponse H → FastcgiResponse
  carried (http_response h) = record { response_data = http.cgi_data h; error_msg = [] }
  carried (fastcgi_response r) = r

  abbrev pub returned : RouteResponse H → Option FastcgiResponse
  returned (plain_response r) = some (carried r)
  returned (optional_response none) = none
  returned (optional_response (some r)) = some (carried r)

module _ {ℓ} {Q F H : Type ℓ} (fcgi : FcgiResponse F) (http : HttpResponse H) where
  event-IsCurrent :
      (id : ℕ) (out : Bool) (error : RouteParameterError) (c : Connection Q (ResponseSender F))
      → IsCurrent fcgi http id out c
      → IsCurrent fcgi http id out (issue (event route_parameters_error (error_message error)) c)
  unfolding lock
  event-IsCurrent id out error c h = record {
    sender = h.sender;
    locked = h.locked;
    is_out = h.is_out;
  }

  pub send-finishes :
      (e : CloseErrors) (id : ℕ) (out : Bool) (x : H) (c : Connection Q (ResponseSender F))
      → IsCurrent fcgi http id out c
      → responder_is_sent fcgi http id (responder_send_http fcgi http e id x c) ≡ true
  send-finishes e id out x c h =
      rw (send_http-send_fastcgi fcgi http)
        (ask-IsCurrent fcgi http id true _ (send-IsCurrent fcgi http e id _ out c h))

  send_any-carried :
      (e : CloseErrors) (id : ℕ) (r : AnyResponse H) (c : Connection Q (ResponseSender F))
      → send_any fcgi http e id r c ≡ answer fcgi http e id (some (carried http r)) c
  unfolding send_any
  send_any-carried e id (http_response h) c = send_http-send_fastcgi fcgi http e id h c
  send_any-carried e id (fastcgi_response r) c = refl

  send_response-returned :
      (e : CloseErrors) (id : ℕ) (r : RouteResponse H) (c : Connection Q (ResponseSender F))
      → send_response fcgi http e id r c ≡ answer fcgi http e id (returned http r) c
  unfolding send_response
  send_response-returned e id (plain_response r) c = send_any-carried e id r c
  send_response-returned e id (optional_response none) c = refl
  send_response-returned e id (optional_response (some r)) c = send_any-carried e id r c

  answer-finishes :
      (e : CloseErrors) (id : ℕ) (out : Bool) (r : Option FastcgiResponse)
      (c : Connection Q (ResponseSender F))
      → IsCurrent fcgi http id out c
      → responder_is_sent fcgi http id (answer fcgi http e id r c) ≡ out || is_some r
  answer-finishes e id out none c h = ask-IsCurrent fcgi http id out c h ∙ ground arith
  answer-finishes e id out (some r) c h =
      ask-IsCurrent fcgi http id true _ (send-IsCurrent fcgi http e id r out c h) ∙ ground arith

  -- Where the context of the request is alive: an unmatched request and a parameter error are answered
  -- as by the fastcgi responses of status 404 and 500, and the processing of routes is finished then;
  -- what a route's processor returned (an http or a fastcgi response, or an optional one of either) is
  -- sent if there is one, with the data and the error that it has, and the processing of routes is
  -- finished exactly if there is one or a response was out before.
  pub responses_finish :
      (e : CloseErrors) (id : ℕ) (out : Bool) (error : RouteParameterError) (r : RouteResponse H)
      (c : Connection Q (ResponseSender F))
      → IsCurrent fcgi http id out c
      → (is_route_processing_finished fcgi http id (process_unmatched_request fcgi http e id c)
          ≡ true)
        × (process_unmatched_request fcgi http e id c
            ≡ answer fcgi http e id (some (carried http (http_response (http.of_status 404)))) c)
        × (is_route_processing_finished fcgi http id
              (on_route_parameters_error fcgi http e id error c)
            ≡ true)
        × (on_route_parameters_error fcgi http e id error c
            ≡ answer fcgi http e id
                (some (carried http (http_response (http.of_status 500))))
                (issue (event route_parameters_error (error_message error)) c))
        × (send_response fcgi http e id r c ≡ answer fcgi http e id (returned http r) c)
        × (is_route_processing_finished fcgi http id (send_response fcgi http e id r c)
            ≡ out || is_some (returned http r))
  unfolding is_route_processing_finished process_unmatched_request on_route_parameters_error
  responses_finish e id out error r c h = (
    send-finishes e id out _ c h,
    send_http-send_fastcgi fcgi http e id _ c,
    send-finishes e id out _ _ (event-IsCurrent id out error c h),
    send_http-send_fastcgi fcgi http e id _ _,
    send_response-returned e id r c,
    rw (send_response-returned e id r c) (answer-finishes e id out (returned http r) c h),
  )

  -- Where a response is out already, the router answers nothing: an unmatched request changes
  -- nothing, and a parameter error is only reported.
  pub late_fallbacks :
      (e : CloseErrors) (id : ℕ) (error : RouteParameterError) (c : Connection Q (ResponseSender F))
      → IsCurrent fcgi http id true c
      → (process_unmatched_request fcgi http e id c ≡ c)
        × (on_route_parameters_error fcgi http e id error c
            ≡ issue (event route_parameters_error (error_message error)) c)
  unfolding process_unmatched_request on_route_parameters_error
  late_fallbacks e id error c h = (
    rw (send_http-send_fastcgi fcgi http) (send_again fcgi http e id _ c h),
    rw (send_http-send_fastcgi fcgi http)
        (send_again fcgi http e id _ _ (event-IsCurrent id true error c h)),
  )
