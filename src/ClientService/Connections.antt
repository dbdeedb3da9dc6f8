-- ===== src/ClientService/Connections.antt =====
-- How long a client service keeps its connections (src/clientservice.cpp).
use asyncgi.ClientService.Defs.{
  ClientService, FastcgiRequest, Form, fastcgi_form, http_form, Pending, ResponseData,
}
use asyncgi.ClientService.Requests.{
  begin, connect_to, connect_to_address, disconnect, on_response_received, call_handler,
  make_local_fastcgi_request, make_local_http_request, make_tcp_fastcgi_request,
  make_tcp_http_request, set_request_processor_queue,
}
use asyncgi.Common.{
  ℕ, ◌+◌, ◌≡◌, refl, Option, none, some, List, [], ◌∷◌, ◌++◌, arith, ◌==◌, if◌then◌else◌, Bytes,
  length, length-append,
}

-- A use of a client service: the four overloads of makeRequest, the call of onResponseReceived by a
-- connection, disconnect() and setRequestProcessorQueue().
pub data Use {κ} (H : Type κ) : Type κ where
  asks_local_fastcgi : Bytes → FastcgiRequest → ℕ → Use H
  asks_local_http : Bytes → H → ℕ → Use H
  asks_tcp_fastcgi : Bytes → ℕ → FastcgiRequest → ℕ → Use H
  asks_tcp_http : Bytes → ℕ → H → ℕ → Use H
  answers : ℕ → Form → Option ResponseData → Use H
  disconnects : Use H
  sets_queue : ℕ → Use H

abbrev pub kept {ℓ} : {V : Type ℓ} → ClientService V → ℕ
kept s = length s.local_client_connections + length s.tcp_client_connections

-- Whether a use is a call of makeRequest
abbrev pub asks {κ} : {H : Type κ} → Use H → ℕ
asks (asks_local_fastcgi path r timeout) = 1
asks (asks_local_http path r timeout) = 1
asks (asks_tcp_fastcgi ip port r timeout) = 1
asks (asks_tcp_http ip port r timeout) = 1
asks (answers id form r) = 0
asks disconnects = 0
asks (sets_queue q) = 0

abbrev pub asked {κ} : {H : Type κ} → List (Use H) → ℕ
asked [] = 0
asked (u ∷ us) = asks u + asked us

-- The requests that are pending when request `id` is not any more
abbrev pub without : ℕ → List Pending → List Pending
without id [] = []
without id (x ∷ rest) = if x.id == id then without id rest else x ∷ without id rest

module _ {ℓ κ} {V : Type ℓ} {H : Type κ} (response_from_string : Bytes → V)
    (to_fcgi_data : H → FastcgiRequest) (make_address : Bytes → Option Bytes) where
  -- An exception of a request over TCP, whose address is refused, leaves what was done before it.
  unfoldable pub apply : Use H → ClientService V → ClientService V
  unfolding make_local_fastcgi_request make_local_http_request make_tcp_fastcgi_request
      make_tcp_http_request on_response_received disconnect set_request_processor_queue
  apply (asks_local_fastcgi path r timeout) s = make_local_fastcgi_request path r timeout s
  apply (asks_local_http path r timeout) s = make_local_http_request to_fcgi_data path r timeout s
  apply (asks_tcp_fastcgi ip port r timeout) s =
      (make_tcp_fastcgi_request make_address ip port r timeout s).1
  apply (asks_tcp_http ip port r timeout) s =
      (make_tcp_http_request to_fcgi_data make_address ip port r timeout s).1
  apply (answers id form r) s =
      on_response_received response_from_string id form r
        (record s { pending = without id s.pending })
  apply disconnects s = disconnect s
  apply (sets_queue q) s = set_request_processor_queue q s

  abbrev pub apply_all : List (Use H) → ClientService V → ClientService V
  apply_all [] s = s
  apply_all (u ∷ us) s = apply_all us (apply u s)

  -- The connections that a use destroys: those to local sockets, where it is disconnect().
  abbrev pub destroys : Use H → ClientService V → ℕ
  destroys (asks_local_fastcgi path r timeout) s = 0
  destroys (asks_local_http path r timeout) s = 0
  destroys (asks_tcp_fastcgi ip port r timeout) s = 0
  destroys (asks_tcp_http ip port r timeout) s = 0
  destroys (answers id form r) s = 0
  destroys disconnects s = length s.local_client_connections
  destroys (sets_queue q) s = 0

  abbrev pub destroyed : List (Use H) → ClientService V → ℕ
  destroyed [] s = 0
  destroyed (u ∷ us) s = destroys u s + destroyed us (apply u s)

  begin-kept : (timeout : ℕ) (s : ClientService V) → kept (begin timeout s) ≡ kept s
  unfolding begin
  begin-kept timeout s = ground arith

  address-kept :
      (address : Option Bytes) (form : Form) (port : ℕ) (r : FastcgiRequest) (s : ClientService V)
      → kept (connect_to_address address form port r s).1 ≡ kept s
  unfolding connect_to_address connect_to
  address-kept none form port r s = refl
  address-kept (some a) form port r s = refl

  answer-kept :
      (id : ℕ) (form : Form) (r : Option ResponseData) (s : ClientService V)
      → kept (on_response_received response_from_string id form r s) ≡ kept s
  unfolding on_response_received call_handler
  answer-kept id form none s = ground arith
  answer-kept id form (some r) s = ground arith

  local-kept :
      (timeout : ℕ) (s : ClientService V)
      → length ((begin timeout s).local_client_connections ++ (begin timeout s).next_request ∷ [])
          + length (begin timeout s).tcp_client_connections
        ≡ kept s + 1
  local-kept timeout s =
      let after = begin timeout s in
      omega (
        arith,
        begin-kept timeout s,
        length-append after.local_client_connections (after.next_request ∷ []),
      )

  tcp-kept :
      (address : Option Bytes) (form : Form) (port : ℕ) (r : FastcgiRequest) (timeout : ℕ)
      (s : ClientService V)
      → kept
          (connect_to_address address form port r (record (begin timeout s) {
            tcp_client_connections =
                (begin timeout s).tcp_client_connections ++ (begin timeout s).next_request ∷ [];
          })).1
        ≡ kept s + 1
  tcp-kept address form port r timeout s =
      let after = begin timeout s in
      omega (
        arith,
        begin-kept timeout s,
        address-kept address form port r (record after {
          tcp_client_connections = after.tcp_client_connections ++ after.next_request ∷ [];
        }),
        length-append after.tcp_client_connections (after.next_request ∷ []),
      )

  apply-kept : (u : Use H) (s : ClientService V) → destroys u s + kept (apply u s) ≡ kept s + asks u
  unfolding apply make_local_fastcgi_request make_local_http_request make_tcp_fastcgi_request
      make_tcp_http_request disconnect connect_to set_request_processor_queue
  apply-kept (asks_local_fastcgi path r timeout) s = omega (arith, local-kept timeout s)
  apply-kept (asks_local_http path r timeout) s = omega (arith, local-kept timeout s)
  apply-kept (asks_tcp_fastcgi ip port r timeout) s =
      omega (arith, tcp-kept (make_address ip) fastcgi_form port r timeout s)
  apply-kept (asks_tcp_http ip port r timeout) s =
      omega (arith, tcp-kept (make_address ip) http_form port (to_fcgi_data r) timeout s)
  apply-kept (answers id form r) s =
      omega (arith, answer-kept id form r (record s { pending = without id s.pending }))
  apply-kept disconnects s = omega arith
  apply-kept (sets_queue q) s = omega arith

  -- However a client service is used, with a queue or without one, from any state: it keeps the
  -- connections that it had and one more for each call of makeRequest, whether it was answered or not,
  -- and also where its address was refused and it threw; but those to local sockets that a disconnect()
  -- destroyed.
  pub connections_are_kept :
      (us : List (Use H)) (s : ClientService V)
      → destroyed us s + kept (apply_all us s) ≡ kept s + asked us
  connections_are_kept [] s = omega arith
  connections_are_kept (u ∷ us) s =
      omega (arith, connections_are_kept us (apply u s), apply-kept u s)
