-- ===== src/Tests/Forwarding.antt =====
-- examples/example_client_in_processor.cpp at concrete requests.
use asyncgi.ClientService.Requests.{make_local_http_request, begin, connect_to}
use asyncgi.Common.{◌≡◌, refl, true, false, some, [], ◌∷◌, Bytes, text}
use asyncgi.Tests.Samples.{toy_fcgi, toy_http, no_errors, new_connection, new_response, ToyResponse}
use asyncgi.Tests.Facades.{alive, to_request}
use asyncgi.Connection.Requests.{begin_request, responder_send_http}
use asyncgi.Connection.Answers.{begin-IsCurrent}
use asyncgi.Examples.Delayed.{Exchange}
use asyncgi.Examples.Forwarding.{
  request_page, requested, observed, request_page_answered, forwards_one_answer,
}
use asyncgi.ClientService.Defs.{
  ResponseData, stop_queue, launch_queue, start_timer, stop_timer, connect, local, handle, report,
  http_reply,
}
use asyncgi.Events.{request_processing_error}

abbrev asked_page : Exchange Bytes (Unit {0}) ToyResponse
asked_page = record {
  services = alive;
  connection = begin_request toy_fcgi toy_http tt new_response new_connection;
}

abbrev told : ResponseData
told = record { response_data = text "hi"; error_msg = text "oops" }

forwards_one_answer_example :
    (request_page toy_fcgi toy_http (λ s. s) to_request (text "GET /") (λ s. s) (λ s. s) asked_page
      ≡ some (
          requested toy_fcgi toy_http
            (λ s. s)
            to_request
            (text "GET /")
            (λ s. s)
            (λ s. s)
            asked_page))
    × (observed toy_fcgi toy_http
          (λ s. s)
          to_request
          (text "GET /")
          (λ s. s)
          (λ s. s)
          0
          (requested toy_fcgi toy_http
            (λ s. s)
            to_request
            (text "GET /")
            (λ s. s)
            (λ s. s)
            asked_page)
        ≡ (
          stop_queue 4
              ∷ start_timer 0 3000
              ∷ connect 0 (local (text "/tmp/fcgi.sock")) (to_request (text "GET /"))
              ∷ [],
          false,
        ))
    × (observed toy_fcgi toy_http
          (λ s. s)
          to_request
          (text "GET /")
          (λ s. s)
          (λ s. s)
          0
          (request_page_answered toy_fcgi toy_http
            (λ s. s)
            to_request
            (text "GET /")
            (λ s. s)
            (λ s. s)
            no_errors
            0
            0
            (some told)
            (requested toy_fcgi toy_http
              (λ s. s)
              to_request
              (text "GET /")
              (λ s. s)
              (λ s. s)
              asked_page))
        ≡ (
          stop_queue 4
              ∷ start_timer 0 3000
              ∷ connect 0 (local (text "/tmp/fcgi.sock")) (to_request (text "GET /"))
              ∷ stop_timer 0
              ∷ report request_processing_error (text "oops")
              ∷ handle 0 (some (http_reply (text "hi")))
              ∷ launch_queue 4
              ∷ [],
          true,
        ))
    × ((request_page_answered toy_fcgi toy_http
          (λ s. s)
          to_request
          (text "GET /")
          (λ s. s)
          (λ s. s)
          no_errors
          0
          0
          (some told)
          (requested toy_fcgi toy_http
            (λ s. s)
            to_request
            (text "GET /")
            (λ s. s)
            (λ s. s)
            asked_page)).connection
        ≡ responder_send_http toy_fcgi toy_http no_errors 0 (text "hi") asked_page.connection)
unfolding make_local_http_request begin connect_to
forwards_one_answer_example =
    forwards_one_answer toy_fcgi toy_http (λ s. s) to_request (text "GET /") (λ s. s) (λ s. s)
      no_errors 0 4 (some told) asked_page refl refl
      (begin-IsCurrent toy_fcgi toy_http tt new_response new_connection refl)
