-- ===== src/ClientService/Requests.antt =====
-- The operations of a ClientService. `response_from_string` and `to_fcgi_data` are hot_teacup's;
-- `make_address` is asio's, and throws where it gives no address.
use asyncgi.Events.{request_processing_error}
use asyncgi.Common.{
  ℕ, ◌+◌, Bool, true, false, not, Option, none, some, [], ◌∷◌, ◌++◌, if◌then◌else◌, Bytes, is_empty,
}
use asyncgi.ClientService.Defs.{
  Endpoint, local, tcp, FastcgiRequest, Form, ClientService, issue, http_form, fastcgi_form,
  ResponseData, start_timer, on_queue, handle, connect, Reply, fastcgi_reply, stop_queue, report,
  launch_queue, http_reply, stop_timer,
}

-- What the four overloads of makeRequest begin with: the queue is stopped, and the timer started.
unfoldable pub begin {ℓ} : {V : Type ℓ} → ℕ → ClientService V → ClientService V
begin timeout s = issue (start_timer s.next_request timeout) (on_queue stop_queue s)

-- What they end with.
unfoldable pub connect_to {ℓ} :
    {V : Type ℓ} → Form → Endpoint → FastcgiRequest → ClientService V → ClientService V
connect_to form endpoint request s = issue (connect s.next_request endpoint request) (record s {
  next_request = s.next_request + 1;
  pending = s.pending ++ record { id = s.next_request; form = form } ∷ [];
})

unfoldable pub make_local_fastcgi_request {ℓ} :
    {V : Type ℓ} → Bytes → FastcgiRequest → ℕ → ClientService V → ClientService V
unfolding begin connect_to
make_local_fastcgi_request socket_path request timeout s =
    let s' = begin timeout s in
    connect_to fastcgi_form (local socket_path) request
      (record s' { local_client_connections = s'.local_client_connections ++ s'.next_request ∷ [] })

unfoldable pub make_local_http_request {ℓ κ} :
    {V : Type ℓ} {H : Type κ}
    → (H → FastcgiRequest)
    → Bytes
    → H
    → ℕ
    → ClientService V
    → ClientService V
unfolding begin connect_to
make_local_http_request to_fcgi_data socket_path request timeout s =
    let s' = begin timeout s in
    connect_to http_form (local socket_path) (to_fcgi_data request)
      (record s' { local_client_connections = s'.local_client_connections ++ s'.next_request ∷ [] })

-- An exception of make_address leaves what was done before it.
unfoldable pub connect_to_address {ℓ} :
    {V : Type ℓ}
    → Option Bytes
    → Form
    → ℕ
    → FastcgiRequest
    → ClientService V
    → Bool × ClientService V
unfolding connect_to
connect_to_address none form port request s = (false, s)
connect_to_address (some address) form port request s =
    (true, connect_to form (tcp address port) request s)

unfoldable pub make_tcp_fastcgi_request {ℓ} :
    {V : Type ℓ}
    → (Bytes → Option Bytes)
    → Bytes
    → ℕ
    → FastcgiRequest
    → ℕ
    → ClientService V
    → Bool × ClientService V
unfolding begin connect_to_address
make_tcp_fastcgi_request make_address ip_address port request timeout s =
    let s' = begin timeout s in
    connect_to_address (make_address ip_address) fastcgi_form port request
      (record s' { tcp_client_connections = s'.tcp_client_connections ++ s'.next_request ∷ [] })

unfoldable pub make_tcp_http_request {ℓ κ} :
    {V : Type ℓ} {H : Type κ}
    → (H → FastcgiRequest)
    → (Bytes → Option Bytes)
    → Bytes
    → ℕ
    → H
    → ℕ
    → ClientService V
    → Bool × ClientService V
unfolding begin connect_to_address
make_tcp_http_request to_fcgi_data make_address ip_address port request timeout s =
    let s' = begin timeout s in
    connect_to_address (make_address ip_address) http_form port (to_fcgi_data request)
      (record s' { tcp_client_connections = s'.tcp_client_connections ++ s'.next_request ∷ [] })

module _ {ℓ} {V : Type ℓ} (response_from_string : Bytes → V) where
  unfoldable pub reply : Form → ResponseData → Reply V
  reply fastcgi_form r = fastcgi_reply r.response_data r.error_msg
  reply http_form r = http_reply (response_from_string r.response_data)

  unfoldable pub call_handler : ℕ → Form → Option ResponseData → ClientService V → ClientService V
  unfolding reply
  call_handler id form none s = issue (handle id none) s
  call_handler id form (some r) s =
      let s' =
        if not (is_empty r.error_msg)
        then issue (report request_processing_error r.error_msg) s
        else s in
      issue (handle id (some (reply form r))) s'

  -- onResponseReceived: it runs when the connection fails, when fcgi_responder has the response, and
  -- when the request was cancelled. The queue is the one of that time.
  unfoldable pub on_response_received :
      ℕ → Form → Option ResponseData → ClientService V → ClientService V
  unfolding call_handler
  on_response_received id form response s =
      on_queue launch_queue (call_handler id form response (issue (stop_timer id) s))

unfoldable pub disconnect {ℓ} : {V : Type ℓ} → ClientService V → ClientService V
disconnect s = record s { local_client_connections = [] }

unfoldable pub set_request_processor_queue {ℓ} :
    {V : Type ℓ} → ℕ → ClientService V → ClientService V
set_request_processor_queue q s = record s { request_processor_queue = some q }
