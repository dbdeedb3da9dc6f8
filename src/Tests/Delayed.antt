-- ===== src/Tests/Delayed.antt =====
-- examples/example_response_dispatching_asio_task.cpp at a concrete request.
use asyncgi.Common.{◌≡◌, refl, true, false, some, [], ◌∷◌, Bytes}
use asyncgi.Tests.Samples.{toy_fcgi, toy_http, no_errors, new_connection, new_response, ToyResponse}
use asyncgi.Tests.Facades.{alive}
use asyncgi.Connection.Requests.{begin_request}
use asyncgi.Connection.Answers.{begin-IsCurrent}
use asyncgi.Examples.Delayed.{
  Exchange, delayed_page, posted, observed, after_task, delayed_send, delayed_timer,
  queue_waits_for_the_response,
}
use asyncgi.AsioDispatcher.Defs.{stop_queue, launch_queue, post}

abbrev asked_page : Exchange Bytes (Unit {0}) ToyResponse
asked_page = record {
  services = alive;
  connection = begin_request toy_fcgi toy_http tt new_response new_connection;
}

queue_waits_for_the_response_example :
    (delayed_page toy_fcgi toy_http (λ s. s) asked_page
      ≡ some (posted toy_fcgi toy_http (λ s. s) asked_page))
    × (observed toy_fcgi toy_http (λ s. s) 0 (after_task toy_fcgi toy_http (λ s. s) asked_page)
        ≡ (stop_queue 4 ∷ post 0 ∷ [], false))
    × (observed toy_fcgi toy_http
          (λ s. s)
          0
          (delayed_send toy_fcgi toy_http
            (λ s. s)
            no_errors
            0
            (after_task toy_fcgi toy_http (λ s. s) asked_page))
        ≡ (stop_queue 4 ∷ post 0 ∷ [], true))
    × (observed toy_fcgi toy_http
          (λ s. s)
          0
          (delayed_timer toy_fcgi toy_http
            (λ s. s)
            no_errors
            0
            0
            (after_task toy_fcgi toy_http (λ s. s) asked_page))
        ≡ (stop_queue 4 ∷ post 0 ∷ launch_queue 4 ∷ [], true))
queue_waits_for_the_response_example =
    queue_waits_for_the_response toy_fcgi toy_http (λ s. s) no_errors 0 4 asked_page refl refl refl
      (begin-IsCurrent toy_fcgi toy_http tt new_response new_connection refl)
