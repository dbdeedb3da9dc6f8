-- ===== src/ClientConnection/Defs.antt =====
-- The state of a ClientConnection and its operations (src/clientconnection.h,
-- src/clientconnection.cpp), which talks to another FastCGI application. The calls of the running
-- handler are in `calls`, oldest first.
use asyncgi.Events.{AsioError, socket_read_error, socket_close_error, socket_write_error}
use asyncgi.Common.{
  ℕ, Bool, true, false, not, Option, none, some, List, [], ◌∷◌, ◌++◌, ltb, ◌==◌, if◌then◌else◌,
  Bytes, length, is_empty,
}
use asyncgi.Net.Outbox.{
  async_connect, Call, CloseErrors, async_read_some, Outbox, close_socket, sub_size, event,
  async_write, add_size, shutdown_socket,
}

pub record ClientConnection : Type 0 where
  pub outbox : Outbox
  pub calls : List Call

-- How a connection attempt ends for the request that made it: the response handler is called with
-- std::nullopt, or *cancelRequestOnTimeout cancels the request of this handle.
pub data Attempt {ℓ} (Handle : Type ℓ) : Type ℓ where
  refused : Attempt Handle
  requested : Handle → Attempt Handle

abbrev pub issue : Call → ClientConnection → ClientConnection
issue call c = record c { calls = c.calls ++ call ∷ [] }

abbrev pub fresh : ClientConnection → ClientConnection
fresh c = record c { calls = [] }

pub make_request : ClientConnection → ClientConnection
make_request c = issue async_connect c

-- `is_open` is what socket_.is_open() returns.
unfoldable pub process_reading : Bool → ClientConnection → ClientConnection
process_reading is_open c = if not is_open then c else issue async_read_some c

report_close : Option AsioError → ClientConnection → ClientConnection
report_close none c = c
report_close (some e) c = issue (event socket_close_error e.message) c

-- The error of `shutdown` is overwritten by that of `close`.
unfoldable pub close : CloseErrors → ClientConnection → ClientConnection
unfolding report_close
close e c =
    let shut = issue close_socket (issue shutdown_socket c) in
    let told = report_close e.on_close shut in
    record told { outbox = record told.outbox { disconnect_requested = false } }

-- writeBuffer_ = nextWriteBuffer_ + data, or writeBuffer_ = data
fill : Bytes → Outbox → Outbox
fill d o =
    if not (is_empty o.next_write_buffer)
    then record o { write_buffer = o.next_write_buffer ++ d; next_write_buffer = [] }
    else record o { write_buffer = d }

start_write : Outbox → ClientConnection → ClientConnection
start_write o c = issue (async_write (length o.write_buffer)) (record c {
  outbox = record o { bytes_to_write = add_size o.bytes_to_write (length o.write_buffer) };
})

unfoldable pub send_data : Bytes → ClientConnection → ClientConnection
unfolding fill start_write
send_data d c =
    if not (c.outbox.bytes_to_write == 0)
    then record c {
      outbox = record c.outbox { next_write_buffer = c.outbox.next_write_buffer ++ d };
    }
    else start_write (fill d c.outbox) c

unfoldable pub on_bytes_written : CloseErrors → ℕ → ClientConnection → ClientConnection
unfolding send_data close
on_bytes_written e n c =
    let left = sub_size c.outbox.bytes_to_write n in
    let c' = record c { outbox = record c.outbox { bytes_to_write = left } } in
    if not (left == 0)
    then c'
    else if not (is_empty c'.outbox.next_write_buffer)
    then send_data [] c'
    else if c'.outbox.disconnect_requested
    then close e c'
    else c'

unfoldable pub disconnect : CloseErrors → ClientConnection → ClientConnection
unfolding close
disconnect e c =
    let c' = record c { outbox = record c.outbox { disconnect_requested = true } } in
    if ltb 0 c'.outbox.bytes_to_write then c' else close e c'

-- The completion handler of the async_read_some in processReading(). `receive` is
-- fcgi::Requester::receiveData of fcgi_responder with all that it calls back.
unfoldable pub read_data :
    (Bytes → ClientConnection → ClientConnection)
    → Bool
    → Bytes
    → ClientConnection
    → ClientConnection
unfolding process_reading
read_data receive is_open d c = process_reading is_open (receive d c)

unfoldable pub on_read :
    (Bytes → ClientConnection → ClientConnection)
    → Bool
    → Option AsioError
    → Bytes
    → ClientConnection
    → ClientConnection
unfolding read_data
on_read receive is_open none d c = read_data receive is_open d c
on_read receive is_open (some error) d c =
    if not error.is_operation_aborted then issue (event socket_read_error error.message) c else c

-- The completion handler of the async_write in sendData().
unfoldable pub on_write : CloseErrors → Option AsioError → ℕ → ClientConnection → ClientConnection
on_write e none n c = on_bytes_written e n c
on_write e (some error) n c = issue (event socket_write_error error.message) c

-- The completion handler of the async_connect in makeRequest(). `send_request` is
-- fcgi::Requester::sendRequest of fcgi_responder for this request, with all that it calls back; it
-- returns a handle of the request, or std::nullopt.
attempt {ℓ} :
    {Handle : Type ℓ} → Option Handle × ClientConnection → Attempt Handle × ClientConnection
attempt (none, c) = (refused, c)
attempt (some handle, c) = (requested handle, c)

unfoldable pub on_connected {ℓ} :
    {Handle : Type ℓ}
    → (ClientConnection → Option Handle × ClientConnection)
    → Bool
    → Option AsioError
    → ClientConnection
    → Attempt Handle × ClientConnection
unfolding process_reading attempt
on_connected send_request is_open none c = attempt (send_request (process_reading is_open c))
on_connected send_request is_open (some error) c = (refused, c)
