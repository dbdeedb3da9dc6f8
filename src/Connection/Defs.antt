-- ===== src/Connection/Defs.antt =====
-- The state of a Connection and its write path (src/connection.h, src/connection.cpp). The calls of
-- the running handler are in `calls`, oldest first.
use asyncgi.Common.{
  ℕ, true, false, not, Option, none, some, List, [], ◌∷◌, ◌++◌, ltb, ◌==◌, if◌then◌else◌, Bytes,
  length, is_empty,
}
use asyncgi.Events.{AsioError, socket_close_error, socket_write_error, socket_read_error}
use asyncgi.Net.Outbox.{
  Call, async_read_some, async_write, shutdown_socket, close_socket, event, CloseErrors, Outbox,
  add_size, sub_size,
}

-- `Q` is fcgi::Request, `R` the ResponseSender. The context is a reference into the heap of
-- ResponseContext objects: its number, under which no other one was made.
pub record Connection {ℓ} (Q R : Type ℓ) : Type ℓ where
  pub response_context : Option ℕ
  pub next_context : ℕ
  pub fcgi_request : Option Q
  pub response_sender : Option R
  pub outbox : Outbox
  pub calls : List Call

-- writeBuffer_ = nextWriteBuffer_ + data, or writeBuffer_ = data
fill : Bytes → Outbox → Outbox
fill d o =
    if not (is_empty o.next_write_buffer)
    then record o { write_buffer = o.next_write_buffer ++ d; next_write_buffer = [] }
    else record o { write_buffer = d }

module _ {ℓ} {Q R : Type ℓ} where
  abbrev pub issue : Call → Connection Q R → Connection Q R
  issue call c = record c { calls = c.calls ++ call ∷ [] }

  abbrev pub fresh : Connection Q R → Connection Q R
  fresh c = record c { calls = [] }

  pub process : Connection Q R → Connection Q R
  process c = issue async_read_some c

  report_close : Option AsioError → Connection Q R → Connection Q R
  report_close none c = c
  report_close (some e) c = issue (event socket_close_error e.message) c

  -- The error of `shutdown` is overwritten by that of `close`.
  unfoldable pub close : CloseErrors → Connection Q R → Connection Q R
  unfolding report_close
  close e c =
      let shut = issue close_socket (issue shutdown_socket c) in
      let told = report_close e.on_close shut in
      record told { outbox = record told.outbox { disconnect_requested = false } }

  start_write : Outbox → Connection Q R → Connection Q R
  start_write o c = issue (async_write (length o.write_buffer)) (record c {
    outbox = record o { bytes_to_write = add_size o.bytes_to_write (length o.write_buffer) };
  })

  unfoldable pub send_data : Bytes → Connection Q R → Connection Q R
  unfolding fill start_write
  send_data d c =
      if not (c.outbox.bytes_to_write == 0)
      then record c {
        outbox = record c.outbox { next_write_buffer = c.outbox.next_write_buffer ++ d };
      }
      else start_write (fill d c.outbox) c

  unfoldable pub on_bytes_written : CloseErrors → ℕ → Connection Q R → Connection Q R
  unfolding send_data close
  on_bytes_written e n c =
      let left = sub_size c.outbox.bytes_to_write n in
      let c' = record c { outbox = record c.outbox { bytes_to_write = left } } in
      if not (left == 0)
      then c'
      else if not (is_empty c'.outbox.next_write_buffer)
      then send_data [] c'
      else if c'.outbox.disconnect_requested
      then close e c'
      else c'

  unfoldable pub disconnect : CloseErrors → Connection Q R → Connection Q R
  unfolding close
  disconnect e c =
      let c' = record c { outbox = record c.outbox { disconnect_requested = true } } in
      if ltb 0 c'.outbox.bytes_to_write then c' else close e c'

  -- The completion handler of the async_read_some in process(). `receive` is
  -- fcgi::Responder::receiveData of fcgi_responder with all that it calls back.
  unfoldable pub read_data :
      (Bytes → Connection Q R → Connection Q R) → Bytes → Connection Q R → Connection Q R
  unfolding process
  read_data receive d c = process (receive d c)

  unfoldable pub on_read :
      (Bytes → Connection Q R → Connection Q R)
      → CloseErrors
      → Option AsioError
      → Bytes
      → Connection Q R
      → Connection Q R
  unfolding read_data
  on_read receive e none d c = read_data receive d c
  on_read receive e (some error) d c =
      if not error.is_operation_aborted
      then close e (issue (event socket_read_error error.message) c)
      else c

  -- The completion handler of the async_write in sendData().
  unfoldable pub on_write : CloseErrors → Option AsioError → ℕ → Connection Q R → Connection Q R
  on_write e none n c = on_bytes_written e n c
  on_write e (some error) n c = close e (issue (event socket_write_error error.message) c)
