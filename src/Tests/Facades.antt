-- ===== src/Tests/Facades.antt =====
-- src/timer.cpp, src/client.cpp and src/asiodispatcher.cpp at concrete inputs.
use asyncgi.Common.{
  ◌≡◌, refl, true, false, Option, none, some, List, [], ◌∷◌, ◌++◌, Bytes, text, pos,
}
use asyncgi.Facade.Holder.{referring}
use asyncgi.Events.{ErrorEvent, socket_read_error, route_parameters_error, connection_error}
use asyncgi.Events.Proxy.{Passed, lvalue, rvalue, proxy_of, stored}
use asyncgi.Facade.Io.{
  Io, Report, by_io, by_router, make_io_with_handler, start_program, deliver_all,
}
use asyncgi.Facade.Delivery.{handlers_get_their_events}
use asyncgi.Tests.Samples.{three_threads}
use asyncgi.Facade.Defs.{Services, timer_of_responder}
use asyncgi.Facade.Isolation.{
  TimerUse, starts, starts_periodic, stops, service_uses, timer_uses, with_timer,
  timers_are_isolated,
}
use asyncgi.Timer.Provider.{new_timer}
use asyncgi.ClientService.Defs.{FastcgiRequest}

abbrev pub alive : Services Bytes
alive = record {
  context_alive = true;
  timer_provider = record { timers = new_timer none ∷ []; request_processor_queue = some 4 };
  client = record {
    request_processor_queue = some 4;
    local_client_connections = [];
    tcp_client_connections = [];
    next_request = 0;
    pending = [];
    calls = [];
  };
  asio_dispatcher = record {
    request_processor_queue = some 4;
    alive = λ q. true;
    actions = [];
    calls = [];
  };
}

abbrev expired : Services Bytes
expired = record alive { context_alive = false }

abbrev some_uses : List TimerUse
some_uses = starts 10 1 ∷ stops ∷ starts_periodic 5 2 ∷ []

timers_are_isolated_example :
    timer_uses some_uses (timer_of_responder alive)
    ≡ some (referring (some 1), with_timer (service_uses some_uses (new_timer (some 4))) alive)
timers_are_isolated_example = timers_are_isolated some_uses alive refl

abbrev a_request : FastcgiRequest
a_request = record { params = []; std_in = text "in" }

abbrev pub to_request : Bytes → FastcgiRequest
to_request h = record { params = []; std_in = h }

abbrev any_address : Bytes → Option Bytes
any_address d = some d

-- A handler that keeps the messages of its events.
abbrev keep : List Bytes → ErrorEvent → Bytes → List Bytes
keep told event message = told ++ message ∷ []

abbrev mixed_reports : List Report
mixed_reports =
    by_io socket_read_error (text "a")
    ∷ by_router route_parameters_error (text "b")
    ∷ by_io connection_error (text "c")
    ∷ []

abbrev with_handler : Passed (List Bytes) → Io (List Bytes)
with_handler passed = record { io_service = three_threads; event_handler = proxy_of passed }

with_handler-made :
    (passed : Passed (List Bytes))
    → make_io_with_handler (pos 3) passed ≡ some (with_handler passed)
unfolding make_io_with_handler
with_handler-made passed = refl

handlers_get_their_events_example :
    ((deliver_all keep mixed_reports (start_program ([] ∷ [] ∷ []) (with_handler (lvalue 1)))).kept
      ≡ [] ∷ (text "a" ∷ text "b" ∷ text "c" ∷ []) ∷ [])
    × ((deliver_all keep mixed_reports
          (start_program ([] ∷ []) (with_handler (rvalue [])))).io.event_handler.error_handler
        ≡ stored (text "a" ∷ text "c" ∷ []))
    × ((deliver_all keep mixed_reports
          (start_program ([] ∷ []) (with_handler (rvalue [])))).router.error_handler
        ≡ stored (text "b" ∷ []))
    × ((deliver_all keep mixed_reports (start_program ([] ∷ []) (with_handler (rvalue [])))).kept
        ≡ [] ∷ [])
handlers_get_their_events_example =
    handlers_get_their_events keep (pos 3) mixed_reports ([] ∷ []) [] [] (with_handler (lvalue 1))
      (with_handler (rvalue [])) (with_handler-made (lvalue 1)) (with_handler-made (rvalue []))
