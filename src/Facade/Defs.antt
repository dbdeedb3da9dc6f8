-- ===== src/Facade/Defs.antt =====
-- Timer, Client and AsioDispatcher. `Services` are those of the connection that a Responder belongs
-- to; a Responder whose ResponseContext is gone reaches none of them.
use asyncgi.Common.{ℕ, Bool, Option, none, some, if◌then◌else◌, Bytes, length, update}
use asyncgi.Facade.Holder.{ServiceHolder, owning, referring, call, call_throwing}
use asyncgi.Timer.Service.{TimerService}
use asyncgi.Timer.Service
use asyncgi.Timer.Provider.{TimerProvider, emplace_timer, new_timer}
use asyncgi.ClientService.Defs.{ClientService, FastcgiRequest}
use asyncgi.ClientService.Requests.{
  make_local_fastcgi_request, make_local_http_request, make_tcp_fastcgi_request,
  make_tcp_http_request,
}
use asyncgi.ClientService.Requests
use asyncgi.AsioDispatcher.Defs.{Dispatcher}
use asyncgi.AsioDispatcher.Defs

pub record Services {ℓ} (V : Type ℓ) : Type ℓ where
  pub context_alive : Bool
  pub timer_provider : TimerProvider
  pub client : ClientService V
  pub asio_dispatcher : Dispatcher

module _ {ℓ} {V : Type ℓ} where
  abbrev pub at_timer : ℕ → (TimerService → TimerService) → Services V → Services V
  at_timer i op w = record w {
    timer_provider = record w.timer_provider { timers = update i op w.timer_provider.timers };
  }

  abbrev pub at_client : Unit {0} → (ClientService V → ClientService V) → Services V → Services V
  at_client r op w = record w { client = op w.client }

  abbrev pub at_dispatcher : Unit {0} → (Dispatcher → Dispatcher) → Services V → Services V
  at_dispatcher r op w = record w { asio_dispatcher = op w.asio_dispatcher }

abbrev pub Timer : Type 0
Timer = ServiceHolder TimerService ℕ

abbrev pub Client {ℓ} : Type ℓ → Type ℓ
Client V = ServiceHolder (ClientService V) (Unit {0})

abbrev pub AsioDispatcher : Type 0
AsioDispatcher = ServiceHolder Dispatcher (Unit {0})

abbrev pub timer_of_io : Timer
timer_of_io = owning (new_timer none)

module _ {ℓ} {V : Type ℓ} where
  -- A live Responder's timer is a new one of the connection's TimerProvider.
  unfoldable pub timer_of_responder : Services V → Timer × Services V
  unfolding emplace_timer
  timer_of_responder w =
      if w.context_alive
      then (
        referring (some (length w.timer_provider.timers)),
        record w { timer_provider = emplace_timer w.timer_provider },
      )
      else (referring none, w)

  unfoldable pub client_of_responder : Services V → Client V
  client_of_responder w = if w.context_alive then referring (some tt) else referring none

  unfoldable pub dispatcher_of_responder : Services V → AsioDispatcher
  dispatcher_of_responder w = if w.context_alive then referring (some tt) else referring none

  -- The public operations of the three classes, with their arguments.
  unfoldable pub timer_start : ℕ → ℕ → Timer × Services V → Option (Timer × Services V)
  unfolding call
  timer_start time callback = call at_timer (Service.start time callback)

  unfoldable pub timer_start_periodic : ℕ → ℕ → Timer × Services V → Option (Timer × Services V)
  unfolding call
  timer_start_periodic time callback = call at_timer (Service.start_periodic time callback)

  unfoldable pub timer_stop : Timer × Services V → Option (Timer × Services V)
  unfolding call
  timer_stop = call at_timer Service.stop

  unfoldable pub client_make_local_fastcgi_request :
      Bytes → FastcgiRequest → ℕ → Client V × Services V → Option (Client V × Services V)
  unfolding call
  client_make_local_fastcgi_request path request timeout =
      call at_client (make_local_fastcgi_request path request timeout)

  unfoldable pub client_make_local_http_request {κ} :
      {H : Type κ}
      → (H → FastcgiRequest)
      → Bytes
      → H
      → ℕ
      → Client V × Services V
      → Option (Client V × Services V)
  unfolding call
  client_make_local_http_request to_fcgi_data path request timeout =
      call at_client (make_local_http_request to_fcgi_data path request timeout)

  -- The two overloads over TCP: an exception of make_address passes through them; the flag says whether
  -- the call has returned.
  unfoldable pub client_make_tcp_fastcgi_request :
      (Bytes → Option Bytes)
      → Bytes
      → ℕ
      → FastcgiRequest
      → ℕ
      → Client V × Services V
      → Option (Bool × Client V × Services V)
  unfolding call_throwing
  client_make_tcp_fastcgi_request make_address ip port request timeout =
      call_throwing at_client (λ r w. w.client)
        (make_tcp_fastcgi_request make_address ip port request timeout)

  unfoldable pub client_make_tcp_http_request {κ} :
      {H : Type κ}
      → (H → FastcgiRequest)
      → (Bytes → Option Bytes)
      → Bytes
      → ℕ
      → H
      → ℕ
      → Client V × Services V
      → Option (Bool × Client V × Services V)
  unfolding call_throwing
  client_make_tcp_http_request to_fcgi_data make_address ip port request timeout =
      call_throwing at_client (λ r w. w.client)
        (make_tcp_http_request to_fcgi_data make_address ip port request timeout)

  unfoldable pub client_disconnect : Client V × Services V → Option (Client V × Services V)
  unfolding call
  client_disconnect = call at_client Requests.disconnect

  unfoldable pub dispatcher_post_task :
      AsioDispatcher × Services V → Option (AsioDispatcher × Services V)
  unfolding call
  dispatcher_post_task = call at_dispatcher Defs.post_task
