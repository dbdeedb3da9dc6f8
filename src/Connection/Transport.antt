-- ===== src/Connection/Transport.antt =====
-- A Connection implements the write path.
use asyncgi.Common.{ℕ, ◌≡◌, arith, Bytes}
use asyncgi.Net.Outbox.{CloseErrors, writes_of, closes}
use asyncgi.Net.Transport.{Reaction, push, complete, request_close, hang_up, Transport}
use asyncgi.Connection.Defs.{Connection, fresh, send_data, on_bytes_written, disconnect, close}

module _ {ℓ} {Q R : Type ℓ} where
  abbrev pub reaction : Connection Q R → Reaction
  reaction c = record { outbox = c.outbox; writes = writes_of c.calls; closed = closes c.calls }

  close-hang_up :
      (e : CloseErrors) (c : Connection Q R) → reaction (close e (fresh c)) ≡ hang_up c.outbox
  unfolding close
  close-hang_up e c = ground arith

  pub send_data-push :
      (d : Bytes) (c : Connection Q R) → reaction (send_data d (fresh c)) ≡ push d c.outbox
  unfolding send_data
  send_data-push d c = ground (arith)

  pub on_bytes_written-complete :
      (e : CloseErrors) (n : ℕ) (c : Connection Q R)
      → reaction (on_bytes_written e n (fresh c)) ≡ complete n c.outbox
  unfolding on_bytes_written
  on_bytes_written-complete e n c = ground (arith)

  pub disconnect-request_close :
      (e : CloseErrors) (c : Connection Q R)
      → reaction (disconnect e (fresh c)) ≡ request_close c.outbox
  unfolding disconnect
  disconnect-request_close e c = ground (arith)

  abbrev pub transport : Transport (Connection Q R)
  transport = record {
    outbox = λ c. c.outbox;
    calls = λ c. c.calls;
    fresh = fresh;
    send_data = send_data;
    on_bytes_written = on_bytes_written;
    disconnect = disconnect;
    send_data_lem = send_data-push;
    on_bytes_written_lem = on_bytes_written-complete;
    disconnect_lem = disconnect-request_close;
  }
