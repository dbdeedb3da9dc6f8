-- ===== src/Facade/Own.antt =====
-- The classes made of an IO, which have a service of their own (src/client.cpp, src/asiodispatcher.cpp,
-- src/timer.cpp).
use asyncgi.Timer.Provider.{new_timer}
use asyncgi.ClientService.Defs.{
  make_client_service, FastcgiRequest, fastcgi_form, start_timer, connect, local,
}
use asyncgi.AsioDispatcher.Defs.{make_dispatcher, post_task, on_lock, post}
use asyncgi.ClientService.Requests.{make_local_fastcgi_request, begin, connect_to}
use asyncgi.Timer.Service.{
  TimerCall, start, stop_queue, start_periodic, stop, launch_queue, TimerService, Wait, once,
  expires_after, async_wait, periodic,
}
use asyncgi.Facade.Holder.{has_value, owning, call, get}
use asyncgi.Facade.Isolation.{
  timer_uses, timer_use, TimerUse, service_uses, starts, starts_periodic, stops,
}
use asyncgi.Facade.Defs.{
  AsioDispatcher, timer_stop, Client, client_make_local_fastcgi_request, Services,
  dispatcher_post_task, timer_start, timer_start_periodic, timer_of_io,
}
use asyncgi.Common.{
  ℕ, ◌≡◌, refl, ◌≢◌, Bool, Option, none, some, List, [], ◌∷◌, ◌++◌, arith, Bytes, All, All-append,
}

-- Client(IO&): a new ClientService
abbrev pub client_of_io {ℓ} : {V : Type ℓ} → Client V
client_of_io = owning make_client_service

-- AsioDispatcher(IO&): a new AsioDispatcherService
abbrev pub dispatcher_of_io : (ℕ → Bool) → AsioDispatcher
dispatcher_of_io alive = owning (make_dispatcher alive)

-- A call that is not one on a queue of a request.
abbrev pub IsOfTimer : TimerCall → Type 0
IsOfTimer c = ((q : ℕ) → c ≢ stop_queue q) × ((q : ℕ) → c ≢ launch_queue q)

armed-alone :
    (time : ℕ) (wait : Wait) (calls : List TimerCall)
    → All IsOfTimer calls
    → All IsOfTimer (calls ++ expires_after time ∷ [] ++ async_wait wait ∷ [])
armed-alone time wait calls h =
    All-append IsOfTimer _ (async_wait wait ∷ [])
      (All-append IsOfTimer calls (expires_after time ∷ []) h
        ((λ q. ground arith, λ q. ground arith), tt))
      ((λ q. ground arith, λ q. ground arith), tt)

-- Without a queue no operation of a TimerService reaches one.
service_uses-alone :
    (us : List TimerUse) (armed : Option Wait) (calls : List TimerCall)
    → All IsOfTimer calls
    → All IsOfTimer
        (service_uses us
          (record { request_processor_queue = none; armed = armed; calls = calls })).calls
unfolding start start_periodic stop
service_uses-alone [] armed calls h = h
service_uses-alone (starts time callback ∷ rest) armed calls h =
    service_uses-alone rest (some (once callback)) _ (armed-alone time (once callback) calls h)
service_uses-alone (starts_periodic time callback ∷ rest) armed calls h =
    service_uses-alone rest (some (periodic time callback)) _
      (armed-alone time (periodic time callback) calls h)
service_uses-alone (stops ∷ rest) armed calls h =
    service_uses-alone rest none _
      (All-append IsOfTimer calls _ h ((λ q. ground arith, λ q. ground arith), tt))

module _ {ℓ} {V : Type ℓ} where
  own_timer :
      (us : List TimerUse) (s : TimerService) (r : Option ℕ) (w : Services V)
      → timer_uses us (record { service = some s; service_optional_ref = r }, w)
        ≡ some (record { service = some (service_uses us s); service_optional_ref = r }, w)
  unfolding timer_uses timer_use timer_start timer_start_periodic timer_stop call has_value get
  own_timer [] s r w = refl
  own_timer (starts time callback ∷ rest) s r w = own_timer rest (start time callback s) r w
  own_timer (starts_periodic time callback ∷ rest) s r w =
      own_timer rest (start_periodic time callback s) r w
  own_timer (stops ∷ rest) s r w = own_timer rest (stop s) r w

  -- A Timer, a Client and an AsioDispatcher that were made of an IO work on a service of their own: get()
  -- always finds it, the services of a connection stay as they are, and no queue of a request is stopped
  -- or launched, however the timer is used, for a request of the client and for a task of the dispatcher.
  pub io_facades_are_apart :
      (us : List TimerUse) (alive : ℕ → Bool) (path : Bytes) (request : FastcgiRequest)
      (timeout : ℕ) (w : Services V)
      → (timer_uses us (timer_of_io, w) ≡ some (owning (service_uses us (new_timer none)), w))
        × All IsOfTimer (service_uses us (new_timer none)).calls
        × (client_make_local_fastcgi_request path request timeout (client_of_io, w)
            ≡ some (
              owning (record {
                request_processor_queue = none;
                local_client_connections = 0 ∷ [];
                tcp_client_connections = [];
                next_request = 1;
                pending = record { id = 0; form = fastcgi_form } ∷ [];
                calls = start_timer 0 timeout ∷ connect 0 (local path) request ∷ [];
              }),
              w,
            ))
        × (dispatcher_post_task (dispatcher_of_io alive, w)
            ≡ some (
              owning (record {
                request_processor_queue = none;
                alive = alive;
                actions = record { queue_observer = none; copies = 1 } ∷ [];
                calls = post 0 ∷ [];
              }),
              w,
            ))
  unfolding client_make_local_fastcgi_request dispatcher_post_task call has_value get
      make_local_fastcgi_request begin connect_to post_task on_lock
  io_facades_are_apart us alive path request timeout w =
      (own_timer us (new_timer none) none w, service_uses-alone us none [] tt, refl, refl)
