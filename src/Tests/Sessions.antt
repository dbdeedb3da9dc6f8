-- ===== src/Tests/Sessions.antt =====
-- A connection from its first request on, at concrete inputs (src/connection.cpp).
use asyncgi.Response.Sender.{is_sent, send_with_error, send}
use asyncgi.Connection.Requests.{
  process_request, begin_request, handle, run, what, responder_send_http, responder_send_fastcgi,
  lock, run_callbacks,
}
use asyncgi.Connection.Session.{
  Event, reads, sends_late, completes, Session, accepted, all_happen, happens,
}
use asyncgi.Connection.Session.Promise.{promise}
use asyncgi.Connection.Session.Refinement.{serves_as_promised}
use asyncgi.Net.Link.Invariant.{unsent_bytes}
use asyncgi.Tests.Samples.{no_errors, ToyResponse, toy_fcgi, toy_http, new_response}
use asyncgi.Response.Processor.{
  RequestProcessor, responding, send_http, done, returned, FastcgiResponse, invoke,
}
use asyncgi.Connection.Session.Growth.{IsPrefix}
use asyncgi.Connection.Session.Liveness.{CanFinish, can_finish}
use asyncgi.Connection.Session.Faults.{
  Incident, goes_well, write_fails, read_fails, occurs, all_occur,
}
use asyncgi.Connection.Session.Safety.{peer_gets_a_prefix}
use asyncgi.Events.{AsioError}
use asyncgi.Connection.Defs.{close, on_write, on_read, send_data, disconnect, on_bytes_written}
use asyncgi.Common.{
  ℕ, ◌<◌, ◌≡◌, refl, ◌⊎◌, inr, false, List, [], ◌∷◌, ◌++◌, arith, ◌==◌, if◌then◌else◌, Bytes, text,
  sum,
}

-- The request 0 is answered later, any other at once.
abbrev waits_for_zero : RequestProcessor ℕ Bytes
waits_for_zero =
    responding λ q. if q == 0 then done returned else send_http (text "b") (done returned)

abbrev page : Bytes → FastcgiResponse
page d = record { response_data = d; error_msg = [] }

-- The answer to the request 0 is sent while it is the last; the answer to the request 1 waits for the
-- write of that; a second answer to the request 0 goes nowhere.
abbrev two_requests : List (Event ℕ ToyResponse)
two_requests =
    reads no_errors ((0, new_response) ∷ [])
    ∷ sends_late no_errors 0 (page (text "a"))
    ∷ reads no_errors ((1, new_response) ∷ [])
    ∷ sends_late no_errors 0 (page (text "x"))
    ∷ completes no_errors [] 1 []
    ∷ []

abbrev after_two : Session ℕ ToyResponse
after_two = all_happen toy_fcgi toy_http (λ q. q) waits_for_zero two_requests accepted

after_two_run : (after_two.wire ≡ text "a") × (after_two.in_flight ≡ 1 ∷ [])
unfolding happens promise invoke process_request begin_request handle run what responder_send_http
    responder_send_fastcgi lock send_data disconnect on_bytes_written on_read is_sent
    send_with_error send run_callbacks
after_two_run = (refl, refl)

serves_as_promised_example :
    (after_two.wire ++ unsent_bytes after_two.conn.outbox ≡ text "ab")
    × ((0 < sum after_two.in_flight) ⊎ (after_two.wire ≡ text "ab"))
unfolding happens promise invoke process_request begin_request handle run what responder_send_http
    responder_send_fastcgi lock send_data disconnect on_bytes_written on_read is_sent
    send_with_error send run_callbacks
serves_as_promised_example =
    serves_as_promised toy_fcgi toy_http (λ q. q) waits_for_zero two_requests
      ((refl, tt), (tt, ((refl, tt), (tt, ((refl, inr (omega arith)), tt))))) (omega arith)

can_finish_example :
    CanFinish toy_fcgi toy_http (λ q. q) waits_for_zero no_errors 2 after_two (text "ab")
unfolding happens promise invoke process_request begin_request handle run what responder_send_http
    responder_send_fastcgi lock send_data disconnect on_bytes_written on_read is_sent
    send_with_error send run_callbacks
can_finish_example =
    can_finish toy_fcgi toy_http (λ q. q) waits_for_zero no_errors two_requests
      ((refl, tt), (tt, ((refl, tt), (tt, ((refl, inr (omega arith)), tt))))) (omega arith) refl

abbrev broken : AsioError
broken = record { is_operation_aborted = false; message = text "broken pipe" }

-- The write of the answer "ab" to the request 0 fails after a byte; the request 1 is answered after that.
abbrev failing : List (Incident ℕ ToyResponse)
failing =
    goes_well (reads no_errors ((0, new_response) ∷ []))
    ∷ goes_well (sends_late no_errors 0 (page (text "ab")))
    ∷ write_fails no_errors broken [] 2 [] 1
    ∷ goes_well (reads no_errors ((1, new_response) ∷ []))
    ∷ read_fails no_errors broken
    ∷ []

abbrev after_failure : Session ℕ ToyResponse
after_failure = all_occur toy_fcgi toy_http (λ q. q) waits_for_zero failing accepted

after_failure_run : (after_failure.wire ≡ text "a") × (after_failure.in_flight ≡ [])
unfolding occurs happens promise invoke process_request begin_request handle run what
    responder_send_http responder_send_fastcgi lock send_data disconnect on_bytes_written on_write
    on_read close is_sent send_with_error send run_callbacks
after_failure_run = (refl, refl)

peer_gets_a_prefix_example : IsPrefix after_failure.wire (text "abb")
unfolding occurs happens promise invoke process_request begin_request handle run what
    responder_send_http responder_send_fastcgi lock send_data disconnect on_bytes_written on_write
    on_read close is_sent send_with_error send run_callbacks
peer_gets_a_prefix_example =
    peer_gets_a_prefix toy_fcgi toy_http (λ q. q) waits_for_zero failing
      ((refl, tt), (tt, ((refl, omega arith), ((refl, tt), (tt, tt))))) (omega arith)
