-- ===== src/Tests/Client.antt =====
-- src/clientconnection.cpp at concrete inputs.
use asyncgi.ClientConnection.Timeouts.{
  happen_all, connects, expires, responds, start_timeout, timeout_cancels_once,
}
use asyncgi.ClientConnection.Defs.{requested}
use asyncgi.ClientConnection.Lifetime.{
  destruct, all_end_with, reads_socket, writes_socket, destroyed_connection_reports_writes,
}
use asyncgi.Net.Outbox.{event}
use asyncgi.ClientConnection.Failures.{uses, sends_data, disconnects_it, write_error_stalls}
use asyncgi.Events.{AsioError, socket_write_error}
use asyncgi.Tests.Samples.{no_errors, new_client}
use asyncgi.ClientConnection.Order.{client_stream_in_order}
use asyncgi.Common.{ℕ, ◌≡◌, refl, true, false, Option, some, [], ◌∷◌, ◌++◌, arith, text}
use asyncgi.Net.Link.{
  Link, Reach, IsFresh, unsent, sends, disconnects, written, here, later, step_send,
  step_disconnect, step_written,
}
use asyncgi.ClientConnection.Defs.{
  ClientConnection, send_data, on_bytes_written, disconnect, on_write, fresh,
}
use asyncgi.ClientConnection.Transport.{transport}

abbrev C : Type 0
C = ClientConnection

abbrev start : Link C
start = record { conn = new_client; in_flight = []; wire = []; sent = [] }

start-IsFresh : IsFresh transport start
start-IsFresh = record {
  nothing_waits = refl;
  nothing_written = refl;
  no_writes = refl;
  wire_is_sent = refl;
}

-- "ab" is being written, "c" waits, and a disconnect was asked for.
abbrev busy : Link C
unfolding send_data disconnect
busy =
    disconnects transport no_errors (sends transport (text "c") (sends transport (text "ab") start))

busy-Reach : Reach transport start busy
unfolding send_data disconnect
busy-Reach =
    later
      (later (later here (step_send (text "ab") (omega arith)))
        (step_send (text "c") (omega arith)))
      (step_disconnect no_errors)

-- "c" is being written.
abbrev last : Link C
unfolding send_data on_bytes_written disconnect
last = written transport no_errors [] 2 [] busy

last-Reach : Reach transport start last
unfolding send_data on_bytes_written disconnect
last-Reach = later busy-Reach (step_written no_errors [] [] 2 refl)

abbrev idle : Link C
unfolding send_data on_bytes_written disconnect
idle = written transport no_errors [] 1 [] last

client_stream_in_order_example : busy.wire ++ unsent transport busy ≡ busy.sent
client_stream_in_order_example = client_stream_in_order start-IsFresh busy-Reach

-- All of "ab" has gone out, and no disconnect was asked for.
abbrev quiet_link : Link C
unfolding send_data on_bytes_written
quiet_link = written transport no_errors [] 2 [] (sends transport (text "ab") start)

quiet_link-Reach : Reach transport start quiet_link
unfolding send_data on_bytes_written
quiet_link-Reach =
    later (later here (step_send (text "ab") (omega arith))) (step_written no_errors [] [] 2 refl)

abbrev broken : AsioError
broken = record { is_operation_aborted = false; message = text "broken pipe" }

write_error_stalls_example :
    (uses no_errors
      (sends_data (text "x") ∷ disconnects_it ∷ [])
      (on_write no_errors (some broken) 0 (fresh busy.conn))).calls
    ≡ event socket_write_error (text "broken pipe") ∷ []
unfolding send_data disconnect
write_error_stalls_example =
    write_error_stalls no_errors broken 0 (sends_data (text "x") ∷ disconnects_it ∷ []) busy.conn
      (omega arith)

timeout_cancels_once_example :
    ((happen_all {Handle = ℕ}
        (connects (requested 5) ∷ expires ∷ expires ∷ [])
        start_timeout).cancelled
      ≡ 5 ∷ [])
    × ((happen_all {Handle = ℕ} (expires ∷ expires ∷ []) start_timeout).cancelled ≡ [])
    × ((happen_all {Handle = ℕ}
          (connects (requested 5) ∷ responds ∷ expires ∷ [])
          start_timeout).cancelled
        ≡ [])
timeout_cancels_once_example = timeout_cancels_once 5 (expires ∷ [])

abbrev handle_three : C → Option ℕ × C
handle_three c = (some 3, c)

abbrev aborted : AsioError
aborted = record { is_operation_aborted = true; message = text "aborted" }

-- Destroyed while it writes "ab" and waits for data to read.
destroyed_connection_reports_writes_example :
    ((all_end_with
        (λ d c. c)
        handle_three
        no_errors
        aborted
        (reads_socket ∷ writes_socket ∷ [])
        ([], fresh (destruct no_errors busy.conn))).0
      ≡ [])
    × ((all_end_with
          (λ d c. c)
          handle_three
          no_errors
          aborted
          (reads_socket ∷ writes_socket ∷ [])
          ([], fresh (destruct no_errors busy.conn))).1
        ≡ record (destruct no_errors busy.conn) {
          calls = event socket_write_error (text "aborted") ∷ [];
        })
destroyed_connection_reports_writes_example =
    destroyed_connection_reports_writes (λ d c. c) handle_three no_errors aborted
      (reads_socket ∷ writes_socket ∷ []) busy.conn refl
