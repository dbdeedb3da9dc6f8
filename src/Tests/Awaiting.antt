-- ===== src/Tests/Awaiting.antt =====
-- examples/example_response_wait_future.cpp at a concrete request.
use asyncgi.Tests.Samples.{toy_fcgi, toy_http, no_errors, new_connection, new_response, ToyResponse}
use asyncgi.Connection.Requests.{begin_request, responder_is_sent, responder_send_http}
use asyncgi.Connection.Answers.{begin-IsCurrent}
use asyncgi.Connection.Defs.{Connection}
use asyncgi.Response.Sender.{ResponseSender}
use asyncgi.Timer.Service.{launch_queue, cancel, task}
use asyncgi.Timer.Future.{poll, polls, call_func}
use asyncgi.Examples.Awaiting.{
  Awaiting, awaiting_page, awaiting_send, with_value, rounds, page_waits_for_its_future,
}
use asyncgi.Common.{ℕ, ◌≡◌, refl, true, false, some, [], ◌∷◌, ◌++◌, Bytes, text}

abbrev C : Type 0
C = Connection (Unit {0}) (ResponseSender ToyResponse)

abbrev asked_page : C
asked_page = begin_request toy_fcgi toy_http tt new_response new_connection

abbrev world : ℕ → Bytes
world value = text "world"

abbrev sends : ℕ → C → C
sends = awaiting_send toy_fcgi toy_http (λ s. s) world no_errors 0

-- The timer has expired twice without a value.
abbrev waited : Awaiting (Unit {0}) ToyResponse
waited = polls sends 1 2 (awaiting_page toy_fcgi toy_http (λ s. s) world (some 4) asked_page)

abbrev called : Awaiting (Unit {0}) ToyResponse
called = call_func sends 7 (with_value 7 waited)

abbrev answered_page : Awaiting (Unit {0}) ToyResponse
answered_page = poll sends 1 (with_value 7 waited)

page_waits_for_its_future_example :
    (responder_is_sent toy_fcgi toy_http 0 waited.state ≡ false)
    × (waited.timer.calls ≡ rounds 4 3)
    × (called.state
        ≡ responder_send_http toy_fcgi toy_http no_errors 0 (text "Hello world") asked_page)
    × (responder_is_sent toy_fcgi toy_http 0 called.state ≡ true)
    × (called.timer.calls ≡ rounds 4 3 ++ task 7 ∷ [])
    × (answered_page.state ≡ called.state)
    × (answered_page.timer.calls ≡ called.timer.calls ++ cancel ∷ launch_queue 4 ∷ rounds 4 1)
    × ((poll sends 1 answered_page).undefined ≡ true)
page_waits_for_its_future_example =
    page_waits_for_its_future toy_fcgi toy_http (λ s. s) world no_errors 0 4 2 7 asked_page
      (begin-IsCurrent toy_fcgi toy_http tt new_response new_connection refl)
