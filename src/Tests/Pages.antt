-- ===== src/Tests/Pages.antt =====
-- The smallest programs, over a connection (src/connection.cpp, examples/example_request_processor.cpp,
-- test_examples/test_exception_in_request_handler.cpp).
use asyncgi.Tests.Samples.{no_errors, ToyResponse, toy_fcgi, new_response}
use asyncgi.Tests.Requests.{Sent, asked}
use asyncgi.Examples.Pages.{empty_guest_book, hello_world, cannot_respond, greeter, count_second}
use asyncgi.Examples.Http.{Response, page, status, status_page, redirect, found_redirect, get}
use asyncgi.Connection.Session.{
  Event, Session, reads, sends_late, completes, accepted, all_happen, happens,
}
use asyncgi.Connection.Session.Pages.{one_answer_each, returning}
use asyncgi.Connection.Requests.{
  HttpResponse, process_request, begin_request, handle, run, what, responder_send_http,
  responder_send_fastcgi, lock, run_callbacks,
}
use asyncgi.Connection.Defs.{send_data, disconnect, on_bytes_written, on_read}
use asyncgi.Response.Processor.{returning_http, invoke, returns}
use asyncgi.Response.Sender.{is_sent, send_with_error, send}
use asyncgi.Net.Link.Invariant.{unsent_bytes}
use asyncgi.Common.{◌<◌, ◌≡◌, refl, ◌⊎◌, inl, inr, List, [], ◌∷◌, ◌++◌, arith, Bytes, text, sum}

-- http::Response, with its status as a byte before its page.
abbrev page_http : HttpResponse Response
page_http = record { cgi_data = on_the_wire; of_status = status }
  where
    on_the_wire : Response → Bytes
    on_the_wire (page d) = 200 ∷ d
    on_the_wire (status n) = n ∷ []
    on_the_wire (status_page n d) = n ∷ d
    on_the_wire (redirect path cookies) = 302 ∷ path
    on_the_wire (found_redirect path) = 302 ∷ path

abbrev for_path : Bytes → Sent
for_path path = record { sent_path = path; sent_method = get; admin_id = []; fields = [] }

-- One read has two requests, of which one is for a page that there is; a kept Responder sends in vain.
abbrev visit : List (Event Sent ToyResponse)
visit =
    reads no_errors
      ((for_path (text "/nowhere"), new_response) ∷ (for_path (text "/"), new_response) ∷ [])
    ∷ sends_late no_errors 1 (record { response_data = text "x"; error_msg = [] })
    ∷ completes no_errors [] 1 []
    ∷ []

abbrev visited : Session Sent ToyResponse
visited =
    all_happen toy_fcgi page_http (λ q. q) (returning_http (empty_guest_book asked)) visit accepted

abbrev book : Bytes
book =
    text "\n                <h1>Guest book</h1>\n                <p>No messages</p>\n            "

one_answer_each_example :
    (visited.wire ++ unsent_bytes visited.conn.outbox ≡ 404 ∷ 200 ∷ book)
    × ((0 < sum visited.in_flight) ⊎ (visited.wire ≡ 404 ∷ 200 ∷ book))
unfolding happens invoke process_request begin_request handle run what responder_send_http
    responder_send_fastcgi lock send_data disconnect on_bytes_written on_read is_sent
    send_with_error send run_callbacks empty_guest_book
one_answer_each_example =
    one_answer_each toy_fcgi page_http (λ q. q) (inl (empty_guest_book asked)) visit
      ((refl, (refl, tt)), (tt, ((refl, inr (omega arith)), tt))) (omega arith)

-- A processor that throws is answered with status 500, and its error is reported.
abbrev after_exception : Session Sent ToyResponse
after_exception =
    all_happen toy_fcgi page_http (λ q. q) cannot_respond
      (reads no_errors ((for_path (text "/"), new_response) ∷ []) ∷ []) accepted

after_exception_run : after_exception.conn.outbox.write_buffer ≡ 500 ∷ []
unfolding happens invoke process_request begin_request handle run what responder_send_http
    responder_send_fastcgi lock send_data disconnect on_bytes_written on_read is_sent
    send_with_error send run_callbacks cannot_respond
after_exception_run = refl

hello_run :
    invoke hello_world (for_path [])
    ≡ invoke (returning_http (λ r. returns (page (text "Hello world")))) (for_path [])
unfolding hello_world
hello_run = refl

greeter_run :
    greeter (count_second (count_second 0)) (for_path [])
    ≡ returns (page (text "Hello world\n(alive for 2 seconds)"))
unfolding greeter count_second
greeter_run = refl

-- A fastcgi response that is returned is sent with its data.
abbrev after_fastcgi : Session Sent ToyResponse
after_fastcgi =
    all_happen toy_fcgi page_http (λ q. q)
      (returning
        (inr (λ (q : Sent). returns (record { response_data = text "f"; error_msg = [] }))))
      (reads no_errors ((for_path (text "/"), new_response) ∷ []) ∷ []) accepted

after_fastcgi_run : after_fastcgi.conn.outbox.write_buffer ≡ text "f"
unfolding happens invoke process_request begin_request handle run what responder_send_http
    responder_send_fastcgi lock send_data disconnect on_bytes_written on_read is_sent
    send_with_error send run_callbacks
after_fastcgi_run = refl
