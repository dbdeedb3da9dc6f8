-- ===== src/Connection/Failures.antt =====
-- What a Connection does when a read or a write fails.
use asyncgi.Events.{AsioError, socket_read_error, socket_write_error, socket_close_error}
use asyncgi.Net.Outbox.{CloseErrors, Call, shutdown_socket, event, close_socket}
use asyncgi.Common.{ℕ, ◌≡◌, false, none, some, List, [], ◌∷◌, arith, if◌then◌else◌, Bytes}
use asyncgi.Connection.Defs.{Connection, on_read, on_write, close, fresh}

-- The calls of close(): the error of `close` is reported, that of `shutdown` is not.
abbrev pub close_calls : CloseErrors → List Call
close_calls e =
    shutdown_socket
    ∷ close_socket
    ∷ elim e.on_close [ none ↦ [] | some error ↦ event socket_close_error error.message ∷ [] ]

module _ {ℓ} {Q R : Type ℓ} where
  -- A failed read, but one that was aborted, and a failed write are each reported under their own
  -- event, and then the socket is shut down and closed, once; an error of the close is reported
  -- after that. An aborted read makes no call. A failed write leaves nextWriteBuffer_ as it is and
  -- takes back the request to disconnect.
  pub failures_close :
      (receive : Bytes → Connection Q R → Connection Q R) (e : CloseErrors) (error : AsioError)
      (d : Bytes) (n : ℕ) (c : Connection Q R)
      → ((on_read receive e (some error) d (fresh c)).calls ≡ (
          if error.is_operation_aborted
          then []
          else event socket_read_error error.message ∷ close_calls e))
        × ((on_write e (some error) n (fresh c)).calls
            ≡ event socket_write_error error.message ∷ close_calls e)
        × ((on_write e (some error) n c).outbox.next_write_buffer ≡ c.outbox.next_write_buffer)
        × ((on_write e (some error) n c).outbox.disconnect_requested ≡ false)
  unfolding on_read on_write close
  failures_close receive e error d n c = (ground arith, ground arith, ground arith, ground arith)
