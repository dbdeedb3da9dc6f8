-- ===== src/ClientService/Histories.antt =====
-- Every sequence of requests, answers and disconnects of a client service with one queue.
use asyncgi.Common.{
  ℕ, ◌+◌, ◌≡◌, refl, ap, subst, Bool, true, false, Option, none, some, List, [], ◌∷◌, ◌++◌, arith,
  Bytes, length,
}
use asyncgi.ClientService.Defs.{
  ClientService, ClientCall, FastcgiRequest, Pending, ResponseData, tcp, Form, fastcgi_form,
  http_form, stop_queue, start_timer,
}
use asyncgi.ClientService.Requests.{
  begin, connect_to_address, disconnect, on_response_received, make_local_fastcgi_request,
  make_local_http_request, make_tcp_fastcgi_request, make_tcp_http_request,
}
use asyncgi.ClientService.Counts.{
  is_stop, is_launch, is_start_of, is_end_of, is_handler_of, count, count-append, made_one,
  is_pending,
}
use asyncgi.ClientService.Balance.{Balanced}
use asyncgi.ClientService.Steps.{on_queue-some, connect_to-Balanced, answer_step-Balanced}

module _ {ℓ κ} {V : Type ℓ} {H : Type κ} (response_from_string : Bytes → V)
    (to_fcgi_data : H → FastcgiRequest) (make_address : Bytes → Option Bytes) where
  pub data Step : ClientService V → ClientService V → Type (ℓ ⊔ κ) where
    by_local_fastcgi :
        (path : Bytes) (r : FastcgiRequest) (timeout : ℕ) (s : ClientService V)
        → Step s (make_local_fastcgi_request path r timeout s)
    by_local_http :
        (path : Bytes) (r : H) (timeout : ℕ) (s : ClientService V)
        → Step s (make_local_http_request to_fcgi_data path r timeout s)
    by_tcp_fastcgi :
        (ip : Bytes) (port : ℕ) (r : FastcgiRequest) (timeout : ℕ) (s t : ClientService V)
        → make_tcp_fastcgi_request make_address ip port r timeout s ≡ (true, t)
        → Step s t
    by_tcp_http :
        (ip : Bytes) (port : ℕ) (r : H) (timeout : ℕ) (s t : ClientService V)
        → make_tcp_http_request to_fcgi_data make_address ip port r timeout s ≡ (true, t)
        → Step s t
    -- the connection of a pending request calls onResponseReceived
    by_answer :
        (xs ys : List Pending) (x : Pending) (r : Option ResponseData) (s : ClientService V)
        → s.pending ≡ xs ++ x ∷ ys
        → Step s (
            on_response_received response_from_string x.id x.form r
              (record s { pending = xs ++ ys }))
    by_disconnect : (s : ClientService V) → Step s (disconnect s)

  pub data Reach (q : ℕ) : ClientService V → Type (ℓ ⊔ κ) where
    fresh : Reach q record {
      request_processor_queue = some q;
      local_client_connections = [];
      tcp_client_connections = [];
      next_request = 0;
      pending = [];
      calls = [];
    }
    step : (s t : ClientService V) → Reach q s → Step s t → Reach q t

  connect_to_address-Balanced :
      (q : ℕ) (address : Option Bytes) (ls ts : List ℕ) (form : Form) (port : ℕ)
      (r : FastcgiRequest) (timeout : ℕ) (s t : ClientService V)
      → Balanced q s
      → connect_to_address address form port r
          (record (begin timeout s) { local_client_connections = ls; tcp_client_connections = ts })
        ≡ (true, t)
      → Balanced q t
  unfolding connect_to_address
  connect_to_address-Balanced q none ls ts form port r timeout s t h e =
      let f : false ≡ true = ap (λ z. z.0) e in ground arith
  connect_to_address-Balanced q (some a) ls ts form port r timeout s t h e =
      subst (Balanced q) (ap (λ z. z.1) e)
        (connect_to-Balanced q ls ts form (tcp a port) r timeout s h)

  Step-Balanced : (q : ℕ) (s t : ClientService V) → Balanced q s → Step s t → Balanced q t
  unfolding make_local_fastcgi_request make_local_http_request make_tcp_fastcgi_request
      make_tcp_http_request disconnect
  Step-Balanced q s t h (by_local_fastcgi path r timeout _) =
      connect_to-Balanced q _ _ _ _ _ timeout s h
  Step-Balanced q s t h (by_local_http path r timeout _) =
      connect_to-Balanced q _ _ _ _ _ timeout s h
  Step-Balanced q s t h (by_tcp_fastcgi ip port r timeout _ _ e) =
      connect_to_address-Balanced q _ _ _ _ _ _ timeout s t h e
  Step-Balanced q s t h (by_tcp_http ip port r timeout _ _ e) =
      connect_to_address-Balanced q _ _ _ _ _ _ timeout s t h e
  Step-Balanced q s t h (by_answer xs ys x r _ e) =
      answer_step-Balanced response_from_string q r xs ys x s h e
  Step-Balanced q s t h (by_disconnect _) = record {
    queue = h.queue;
    stops = h.stops;
    launches = h.launches;
    starts = h.starts;
    ends = h.ends;
    handlers = h.handlers;
  }

  Reach-Balanced : (q : ℕ) (s : ClientService V) → Reach q s → Balanced q s
  Reach-Balanced q s fresh = record {
    queue = refl;
    stops = refl;
    launches = refl;
    starts = λ i. ground arith;
    ends = λ i. ground arith;
    handlers = λ i. ground arith;
  }
  Reach-Balanced q t (step s _ before one) = Step-Balanced q s t (Reach-Balanced q s before) one

  -- In every state that requests that found their address, answers of pending requests and
  -- disconnects reach from a service with a queue: the queue was stopped once for each request, and
  -- launched once for each request that is no longer pending; of request i the timer was started
  -- once if the request was made, and then stopped once and its handler called once unless it is
  -- pending.
  pub requests_balance :
      (q i : ℕ) (s : ClientService V)
      → Reach q s
      → (count is_stop s.calls ≡ s.next_request)
        × (count is_launch s.calls + length s.pending ≡ s.next_request)
        × (count (is_start_of i) s.calls ≡ made_one i s.next_request)
        × (count (is_end_of i) s.calls + count (is_pending i) s.pending ≡ made_one i s.next_request)
        × (count (is_handler_of i) s.calls + count (is_pending i) s.pending
            ≡ made_one i s.next_request)
  requests_balance q i s r =
      let b = Reach-Balanced q s r in (b.stops, b.launches, b.starts i, b.ends i, b.handlers i)

  -- A request was refused: it threw, nothing is pending that was not before, its timer was started, and
  -- one stop of the queue is left without a launch.
  abbrev pub LeftStopped : ClientService V → Bool × ClientService V → Type 0
  LeftStopped s out =
      (out.0 ≡ false)
      × (out.1.pending ≡ s.pending)
      × (count (is_start_of s.next_request) out.1.calls ≡ 1)
      × (count is_stop out.1.calls ≡ count is_launch out.1.calls + length out.1.pending + 1)

  refused-LeftStopped :
      (q : ℕ) (form : Form) (port : ℕ) (r : FastcgiRequest) (timeout : ℕ) (s : ClientService V)
      → Reach q s
      → LeftStopped s (
          let s' = begin timeout s in
          connect_to_address none form port r (record s' {
            tcp_client_connections = s'.tcp_client_connections ++ s'.next_request ∷ [];
          }))
  unfolding begin connect_to_address
  refused-LeftStopped q form port r timeout s reached =
      let b = Reach-Balanced q s reached in
      let new : List (ClientCall V) = stop_queue q ∷ [] in
      let start : List (ClientCall V) = start_timer s.next_request timeout ∷ [] in
      rw (on_queue-some stop_queue q s b.queue) (
        refl,
        refl,
        ground (
          arith,
          b.starts s.next_request,
          count-append (is_start_of s.next_request) (s.calls ++ new) start,
          count-append (is_start_of s.next_request) s.calls new,
        ),
        ground (
          arith,
          b.stops,
          b.launches,
          count-append is_stop (s.calls ++ new) start,
          count-append is_stop s.calls new,
          count-append is_launch (s.calls ++ new) start,
          count-append is_launch s.calls new,
        ),
      )

  -- In every state that requests that found their address, answers of pending requests and
  -- disconnects reach from a service with a queue: a request over TCP whose address is refused, of a
  -- fcgi::Request or of an http::Request, throws, and has then stopped the queue and started its timer
  -- with no request pending that would launch the one or stop the other: the stops exceed the launches
  -- and the pending requests together by one.
  pub bad_address_leaves_queue_stopped :
      (q : ℕ) (ip : Bytes) (port : ℕ) (r : FastcgiRequest) (h : H) (timeout : ℕ)
      (s : ClientService V)
      → Reach q s
      → make_address ip ≡ none
      → LeftStopped s (make_tcp_fastcgi_request make_address ip port r timeout s)
        × LeftStopped s (make_tcp_http_request to_fcgi_data make_address ip port h timeout s)
  unfolding make_tcp_fastcgi_request make_tcp_http_request
  bad_address_leaves_queue_stopped q ip port r h timeout s reached refused = rw refused (
    refused-LeftStopped q fastcgi_form port r timeout s reached,
    refused-LeftStopped q http_form port (to_fcgi_data h) timeout s reached,
  )
