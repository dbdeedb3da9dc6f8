-- ===== src/Tests/Connection.antt =====
-- src/connection.cpp at concrete inputs.
use asyncgi.Connection.Responders.{answered_once, stale_responder}
use asyncgi.Connection.Answers.{final_event, process_request-answer}
use asyncgi.Connection.Requests.{
  process_request, responder_send_fastcgi, begin_request, handle, responder_is_sent, run, what,
  responder_send_http, lock, run_callbacks,
}
use asyncgi.Net.Link.Order.{Finished}
use asyncgi.Net.Link.Drain.{Drain, rests, proceeds}
use asyncgi.Response.Processor.{
  invoke, RequestProcessor, responding, returning_http, send_http, throws, done, std_exception,
  threw, unknown,
}
use asyncgi.Tests.Samples.{no_errors, new_connection, ToyResponse, toy_fcgi, toy_http, new_response}
use asyncgi.Connection.Order.{
  one_write_at_a_time, stream_in_order, write_closes_at_the_end, disconnect_closes_at_the_end,
  drains, writing_ends,
}
use asyncgi.Response.Sender.{ResponseSender, is_sent, send_with_error, send}
use asyncgi.Common.{
  ℕ, ◌≤◌, ◌<◌, ◌≡◌, refl, ◌≢◌, ◌⊎◌, true, [], ◌∷◌, ◌++◌, arith, Bytes, text, length, sum,
}
use asyncgi.Net.Link.{
  Link, Reach, IsFresh, unsent, sends, disconnects, written, here, later, step_send,
  step_disconnect, step_written,
}
use asyncgi.Connection.Defs.{send_data, on_bytes_written, disconnect, Connection}
use asyncgi.Connection.Transport.{transport}

abbrev C : Type 0
C = Connection (Unit {0}) (ResponseSender ToyResponse)

abbrev start : Link C
start = record { conn = new_connection; in_flight = []; wire = []; sent = [] }

start-IsFresh : IsFresh transport start
start-IsFresh = record {
  nothing_waits = refl;
  nothing_written = refl;
  no_writes = refl;
  wire_is_sent = refl;
}

-- "ab" is being written, "c" waits, and a disconnect was asked for.
abbrev busy : Link C
unfolding send_data disconnect
busy =
    disconnects transport no_errors (sends transport (text "c") (sends transport (text "ab") start))

busy-Reach : Reach transport start busy
unfolding send_data disconnect
busy-Reach =
    later
      (later (later here (step_send (text "ab") (omega arith)))
        (step_send (text "c") (omega arith)))
      (step_disconnect no_errors)

-- "c" is being written.
abbrev last : Link C
unfolding send_data on_bytes_written disconnect
last = written transport no_errors [] 2 [] busy

last-Reach : Reach transport start last
unfolding send_data on_bytes_written disconnect
last-Reach = later busy-Reach (step_written no_errors [] [] 2 refl)

abbrev idle : Link C
unfolding send_data on_bytes_written disconnect
idle = written transport no_errors [] 1 [] last

idle-Reach : Reach transport start idle
unfolding send_data on_bytes_written disconnect
idle-Reach = later last-Reach (step_written no_errors [] [] 1 refl)

disconnect_closes_at_the_end_example : idle.wire ≡ text "abc"
unfolding send_data on_bytes_written disconnect
disconnect_closes_at_the_end_example =
    disconnect_closes_at_the_end start-IsFresh idle-Reach no_errors refl

stream_in_order_example : busy.wire ++ unsent transport busy ≡ busy.sent
stream_in_order_example = stream_in_order start-IsFresh busy-Reach

one_write_at_a_time_example :
    ◌≡◌ {A = ℕ} 2 busy.conn.outbox.bytes_to_write
    × (◌≡◌ {A = ℕ} 0 0)
    × (2 ≡ length busy.conn.outbox.write_buffer)
    × ((sends transport (text "d") busy).conn.outbox.write_buffer ≡ busy.conn.outbox.write_buffer)
unfolding send_data on_bytes_written disconnect
one_write_at_a_time_example =
    one_write_at_a_time start-IsFresh busy-Reach [] [] 2 (text "d") refl (omega arith)

write_closes_at_the_end_example : (written transport no_errors [] 1 [] last).wire ≡ text "abc"
unfolding send_data on_bytes_written disconnect
write_closes_at_the_end_example =
    write_closes_at_the_end start-IsFresh last-Reach no_errors [] [] 1 refl refl

drains_example :
    Finished transport last true
    ⊎ ((k : ℕ) × (last.in_flight ≡ k ∷ [])
        × (k ≢ 0)
        × Finished transport (written transport no_errors [] k [] last) true)
unfolding send_data on_bytes_written disconnect busy-Reach
drains_example = drains start-IsFresh busy-Reach no_errors [] [] 2 refl (omega arith)

busy-Drain : Drain transport busy 2 idle
unfolding send_data on_bytes_written disconnect
busy-Drain =
    proceeds no_errors [] [] 2 refl (omega arith)
      (proceeds no_errors [] [] 1 refl (omega arith) rests)

writing_ends_example : (2 ≤ 2) × ((0 < sum idle.in_flight) ⊎ (idle.wire ≡ busy.sent))
writing_ends_example = writing_ends start-IsFresh busy-Reach busy-Drain

abbrev B : Type 0
B = Unit {0}

-- User code that throws before it has sent anything, and code that sends twice and then throws.
abbrev throwing : RequestProcessor B Bytes
throwing = returning_http λ _. throws (std_exception (text "oops"))

abbrev hasty : RequestProcessor B Bytes
hasty = responding λ _. send_http (text "one") (send_http (text "two") (done (threw unknown)))

abbrev after : RequestProcessor B Bytes → C
after p = process_request toy_fcgi toy_http (λ q. q) p no_errors tt new_response new_connection

throwing_run : (after throwing).outbox.write_buffer ≡ 500 ∷ []
unfolding process_request begin_request handle run what responder_send_http lock send_data
    disconnect is_sent send_with_error send invoke run_callbacks
throwing_run = refl

hasty_run : (after hasty).outbox.write_buffer ≡ text "one"
unfolding process_request begin_request handle run what responder_send_http lock send_data
    disconnect is_sent send_with_error send invoke run_callbacks
hasty_run = refl

process_request-answer_example :
    after hasty
    ≡ final_event toy_fcgi toy_http (threw unknown) (
        responder_send_fastcgi toy_fcgi toy_http no_errors 0
          (record { response_data = text "one"; error_msg = [] })
          (begin_request toy_fcgi toy_http tt new_response new_connection))
unfolding invoke
process_request-answer_example =
    process_request-answer toy_fcgi toy_http (λ q. q) hasty no_errors tt new_response new_connection
      refl

answered_once_example :
    responder_send_fastcgi toy_fcgi toy_http no_errors 0
      (record { response_data = text "three"; error_msg = [] })
      (after throwing)
    ≡ after throwing
unfolding invoke
answered_once_example =
    answered_once toy_fcgi toy_http (λ q. q) throwing no_errors tt new_response new_connection
      (record { response_data = text "three"; error_msg = [] }) refl refl

stale_responder_example :
    (responder_send_fastcgi toy_fcgi toy_http no_errors 7
        (record { response_data = text "late"; error_msg = [] })
        (after hasty)
      ≡ after hasty)
    × (responder_is_sent toy_fcgi toy_http 7 (after hasty) ≡ true)
unfolding invoke
stale_responder_example =
    stale_responder toy_fcgi toy_http (λ q. q) hasty no_errors tt new_response new_connection 7
      (record { response_data = text "late"; error_msg = [] }) refl (omega arith)
