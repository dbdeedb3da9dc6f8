-- ===== src/Tests/Clients.antt =====
-- src/clientservice.cpp and src/connection.cpp's error paths at concrete inputs.
use asyncgi.Common.{◌+◌, ◌≡◌, refl, Bool, Option, none, some, List, [], ◌∷◌, Bytes, text}
use asyncgi.ClientService.Defs.{
  ClientService, FastcgiRequest, Pending, fastcgi_form, http_form, make_client_service,
}
use asyncgi.ClientService.Requests.{
  make_local_fastcgi_request, begin, connect_to, make_tcp_fastcgi_request, make_tcp_http_request,
  on_response_received, call_handler,
}
use asyncgi.ClientService.Counts.{is_stop, is_launch, is_start_of, is_end_of, is_handler_of, count}
use asyncgi.ClientService.Connections.{
  Use, asks_local_http, asks_local_fastcgi, asks_tcp_fastcgi, answers, disconnects, destroyed, kept,
  apply_all, connections_are_kept,
}
use asyncgi.ClientService.Histories.{
  Reach, fresh, step, by_local_fastcgi, by_answer, requests_balance,
  bad_address_leaves_queue_stopped, LeftStopped,
}

abbrev no_service : ClientService Bytes
no_service = record {
  request_processor_queue = some 7;
  local_client_connections = [];
  tcp_client_connections = [];
  next_request = 0;
  pending = [];
  calls = [];
}

abbrev a_request : FastcgiRequest
a_request = record { params = []; std_in = text "in" }

-- Two requests were made, and the first was answered.
abbrev asked_twice : ClientService Bytes
unfolding make_local_fastcgi_request begin connect_to
asked_twice =
    make_local_fastcgi_request (text "b") a_request 30
      (make_local_fastcgi_request (text "a") a_request 20 no_service)

abbrev first : Pending
first = record { id = 0; form = fastcgi_form }

abbrev second : Pending
second = record { id = 1; form = fastcgi_form }

abbrev answered : ClientService Bytes
unfolding on_response_received call_handler make_local_fastcgi_request begin connect_to
answered =
    on_response_received (λ d. d) first.id first.form none
      (record asked_twice { pending = second ∷ [] })

-- Addresses are refused.
abbrev refuse : Bytes → Option Bytes
refuse ip = none

abbrev to_request : Bytes → FastcgiRequest
to_request h = a_request

answered-Reach : Reach (λ (d : Bytes). d) to_request refuse 7 answered
unfolding on_response_received call_handler make_local_fastcgi_request begin connect_to
answered-Reach =
    step _ _
      (step _ _ (step _ _ fresh (by_local_fastcgi (text "a") a_request 20 _))
        (by_local_fastcgi (text "b") a_request 30 _))
      (by_answer [] (second ∷ []) first none asked_twice refl)

requests_balance_example :
    (count is_stop answered.calls ≡ 2)
    × (count is_launch answered.calls + 1 ≡ 2)
    × (count (is_start_of 1) answered.calls ≡ 1)
    × (count (is_end_of 1) answered.calls + 1 ≡ 1)
    × (count (is_handler_of 1) answered.calls + 1 ≡ 1)
unfolding on_response_received call_handler make_local_fastcgi_request begin connect_to
requests_balance_example =
    requests_balance (λ (d : Bytes). d) to_request refuse 7 1 answered answered-Reach

abbrev refused : Bool × ClientService Bytes
refused = make_tcp_fastcgi_request refuse (text "nowhere") 9 a_request 40 answered

bad_address_leaves_queue_stopped_example :
    LeftStopped (λ (d : Bytes). d) to_request refuse answered refused
    × LeftStopped
        (λ (d : Bytes). d)
        to_request
        refuse
        answered
        (make_tcp_http_request to_request refuse (text "nowhere") 9 (text "h") 40 answered)
unfolding on_response_received call_handler make_local_fastcgi_request begin connect_to
bad_address_leaves_queue_stopped_example =
    bad_address_leaves_queue_stopped (λ (d : Bytes). d) to_request refuse 7 (text "nowhere") 9
      a_request (text "h") 40 answered answered-Reach refl

-- The client of an IO: its first request is answered, its second one refused, and then it disconnects.
abbrev io_uses : List (Use Bytes)
io_uses =
    asks_local_http (text "a") (text "h") 20
    ∷ answers 0 http_form none
    ∷ asks_tcp_fastcgi (text "nowhere") 9 a_request 40
    ∷ disconnects
    ∷ asks_local_fastcgi (text "b") a_request 30
    ∷ []

connections_are_kept_example :
    destroyed (λ (d : Bytes). d) to_request refuse io_uses make_client_service
      + kept (apply_all (λ (d : Bytes). d) to_request refuse io_uses make_client_service)
    ≡ 3
connections_are_kept_example =
    connections_are_kept (λ (d : Bytes). d) to_request refuse io_uses make_client_service
