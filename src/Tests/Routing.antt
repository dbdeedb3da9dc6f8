-- ===== src/Tests/Routing.antt =====
-- include/asyncgi/router.h and include/asyncgi/request.h at concrete inputs.
use asyncgi.Common.{
  ◌≡◌, refl, true, false, not, some, [], ◌∷◌, ◌++◌, ◌==◌, Bytes, text, length, pos,
}
use asyncgi.Connection.Answers.{IsCurrent, answer, begin-IsCurrent, send-IsCurrent}
use asyncgi.Connection.Requests.{begin_request, responder_send_fastcgi}
use asyncgi.Connection.Defs.{Connection, issue}
use asyncgi.Net.Outbox.{event}
use asyncgi.Events.{route_parameters_error}
use asyncgi.Router.Overrides.{
  is_route_processing_finished, on_route_parameters_error, process_unmatched_request, send_response,
  count_mismatch, http_response, fastcgi_response, optional_response, error_message,
  RouteParameterError, RouteResponse,
}
use asyncgi.Router.Fallbacks.{responses_finish, carried}
use asyncgi.Request.View.{FcgiRequest, RequestView, ask, make_request}
use asyncgi.Request.Accesses.{ask_each, accessors_agree}
use asyncgi.Router.Decimal.{to_string}
use asyncgi.Tests.Samples.{no_errors, new_connection, ToyResponse, toy_fcgi, toy_http, new_response}
use asyncgi.Response.Sender.{ResponseSender}

abbrev C : Type 0
C = Connection (Unit {0}) (ResponseSender ToyResponse)

abbrev asked : C
unfolding begin_request
asked = begin_request toy_fcgi toy_http tt new_response new_connection

asked-IsCurrent : IsCurrent toy_fcgi toy_http 0 false asked
unfolding begin_request
asked-IsCurrent = begin-IsCurrent toy_fcgi toy_http tt new_response new_connection refl

abbrev answered : C
answered =
    responder_send_fastcgi toy_fcgi toy_http no_errors 0
      (record { response_data = text "one"; error_msg = [] }) asked

answered-IsCurrent : IsCurrent toy_fcgi toy_http 0 true answered
answered-IsCurrent = send-IsCurrent toy_fcgi toy_http no_errors 0 _ false asked asked-IsCurrent

abbrev mismatch : RouteParameterError
mismatch = count_mismatch 2 13

mismatch_message :
    error_message mismatch
    ≡ text "RouteParameterError: Parameter count mismatch, expected: 2, actual:13"
unfolding error_message to_string
mismatch_message = refl

abbrev returned_response : RouteResponse Bytes
returned_response =
    optional_response
      (some (fastcgi_response (record { response_data = text "two"; error_msg = text "e" })))

responses_finish_example :
    (is_route_processing_finished toy_fcgi toy_http 0
        (process_unmatched_request toy_fcgi toy_http no_errors 0 asked)
      ≡ true)
    × (process_unmatched_request toy_fcgi toy_http no_errors 0 asked
        ≡ answer toy_fcgi toy_http no_errors 0
            (some (carried toy_http (http_response (toy_http.of_status 404))))
            asked)
    × (is_route_processing_finished toy_fcgi toy_http 0
          (on_route_parameters_error toy_fcgi toy_http no_errors 0 mismatch asked)
        ≡ true)
    × (on_route_parameters_error toy_fcgi toy_http no_errors 0 mismatch asked
        ≡ answer toy_fcgi toy_http no_errors 0
            (some (carried toy_http (http_response (toy_http.of_status 500))))
            (issue (event route_parameters_error (error_message mismatch)) asked))
    × (send_response toy_fcgi toy_http no_errors 0 returned_response asked
        ≡ answer toy_fcgi toy_http no_errors 0
            (some (record { response_data = text "two"; error_msg = text "e" }))
            asked)
    × (is_route_processing_finished toy_fcgi toy_http 0
          (send_response toy_fcgi toy_http no_errors 0 returned_response asked)
        ≡ true)
responses_finish_example =
    responses_finish toy_fcgi toy_http no_errors 0 false mismatch returned_response asked
      asked-IsCurrent

-- A request whose parameters all have their name as their value, but CONTENT_TYPE, which is missing.
abbrev toy_request : FcgiRequest (Unit {0})
toy_request = record {
  has_param = λ name q. not (length name == 12);
  param = λ name q. name;
  params = λ q. [];
  std_in = λ q. text "body";
}

-- A view that keeps the method, the path and the body.
abbrev toy_view : RequestView Bytes
toy_view = record {
  request_view = λ m ip host uri q cookie content_type body. m ++ uri ++ content_type ++ body;
  view_ip_address = λ v. v;
  view_domain_name = λ v. v;
  view_path = λ v. v;
  view_method = λ v. length v;
  view_query = λ n v. v;
  view_has_query = λ n v. true;
  view_cookie = λ n v. v;
  view_has_cookie = λ n v. true;
  view_form_field = λ n i v. v;
  view_form_field_count = λ n v. pos 1;
  view_has_form_field = λ n v. true;
  view_file_data = λ n i v. v;
  view_file_count = λ n v. pos 1;
  view_has_file = λ n v. true;
  view_file_name = λ n i v. v;
  view_file_type = λ n i v. v;
  view_queries = λ v. [];
  view_cookies = λ v. [];
  view_form_field_list = λ v. [];
  view_file_list = λ v. [];
  view_has_files = λ v. true;
}

accessors_agree_example :
    ((ask toy_request toy_view toy_view.view_method (
        ask_each toy_request toy_view
          (toy_view.view_path ∷ [])
          (make_request toy_request toy_view tt))).0
      ≡ 29)
    × ((ask toy_request toy_view toy_view.view_method (
          ask_each toy_request toy_view
            (toy_view.view_path ∷ [])
            (make_request toy_request toy_view tt))).1.http_request.runs
        ≡ 1)
accessors_agree_example =
    accessors_agree toy_request toy_view tt (toy_view.view_path ∷ []) toy_view.view_method
