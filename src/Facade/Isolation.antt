-- ===== src/Facade/Isolation.antt =====
-- Which services the operations of a Timer, a Client and an AsioDispatcher reach (src/timer.cpp,
-- src/client.cpp, src/asiodispatcher.cpp).
use asyncgi.Common.{
  ℕ, ◌≡◌, refl, true, Option, none, some, List, [], ◌∷◌, ◌++◌, arith, length, update-middle,
}
use asyncgi.Facade.Holder.{referring, call, has_value, get}
use asyncgi.Facade.Defs.{
  Services, Timer, timer_of_responder, timer_start, timer_start_periodic, timer_stop,
}
use asyncgi.Timer.Service.{TimerService, start, start_periodic, stop}
use asyncgi.Timer.Provider.{emplace_timer, new_timer}

-- What user code does with a Timer.
pub data TimerUse : Type 0 where
  starts : ℕ → ℕ → TimerUse
  starts_periodic : ℕ → ℕ → TimerUse
  stops : TimerUse

-- The same on a TimerService.
abbrev pub service_use : TimerUse → TimerService → TimerService
service_use (starts time callback) s = start time callback s
service_use (starts_periodic time callback) s = start_periodic time callback s
service_use stops s = stop s

abbrev pub service_uses : List TimerUse → TimerService → TimerService
service_uses [] s = s
service_uses (u ∷ rest) s = service_uses rest (service_use u s)

module _ {ℓ} {V : Type ℓ} where
  unfoldable pub timer_use : TimerUse → Timer × Services V → Option (Timer × Services V)
  unfolding timer_start timer_start_periodic timer_stop
  timer_use (starts time callback) = timer_start time callback
  timer_use (starts_periodic time callback) = timer_start_periodic time callback
  timer_use stops = timer_stop

  unfoldable pub timer_uses : List TimerUse → Timer × Services V → Option (Timer × Services V)
  unfolding timer_use
  timer_uses [] t = some t
  timer_uses (u ∷ rest) t = elim (timer_use u t) [ none ↦ none | some t' ↦ timer_uses rest t' ]

  -- The connection's services with one more timer.
  abbrev pub with_timer : TimerService → Services V → Services V
  with_timer s w = record w {
    timer_provider = record w.timer_provider { timers = w.timer_provider.timers ++ s ∷ [] };
  }

  timer_use-new :
      (u : TimerUse) (s : TimerService) (w : Services V)
      → timer_use u (referring (some (length w.timer_provider.timers)), with_timer s w)
        ≡ some (referring (some (length w.timer_provider.timers)), with_timer (service_use u s) w)
  unfolding timer_use timer_start timer_start_periodic timer_stop call has_value get
  timer_use-new (starts time callback) s w = rw update-middle refl
  timer_use-new (starts_periodic time callback) s w = rw update-middle refl
  timer_use-new stops s w = rw update-middle refl

  timer_uses-new :
      (us : List TimerUse) (s : TimerService) (w : Services V)
      → timer_uses us (referring (some (length w.timer_provider.timers)), with_timer s w)
        ≡ some (referring (some (length w.timer_provider.timers)), with_timer (service_uses us s) w)
  unfolding timer_uses
  timer_uses-new [] s w = refl
  timer_uses-new (u ∷ rest) s w =
      rw (timer_use-new u s w, timer_uses) (timer_uses-new rest (service_use u s) w)

  live-timer :
      (w : Services V)
      → w.context_alive ≡ true
      → timer_of_responder w ≡ (
        referring (some (length w.timer_provider.timers)),
        with_timer (new_timer w.timer_provider.request_processor_queue) w,
      )
  unfolding timer_of_responder emplace_timer
  live-timer w alive = ground arith

  -- However a Timer that was made of a live Responder is used, get() is never called without a
  -- service, and what the connection has afterwards is what it had and, behind its timers, one more:
  -- a new timer with the queue of that time, on which the TimerService's operations were done. No
  -- other timer of the connection changes.
  pub timers_are_isolated :
      (us : List TimerUse) (w : Services V)
      → w.context_alive ≡ true
      → timer_uses us (timer_of_responder w)
        ≡ some (
          referring (some (length w.timer_provider.timers)),
          with_timer (service_uses us (new_timer w.timer_provider.request_processor_queue)) w,
        )
  timers_are_isolated us w alive = rw (live-timer w alive) (timer_uses-new us _ w)

  pub timer_uses-none :
      (us : List TimerUse) (w : Services V)
      → timer_uses us (referring none, w) ≡ some (referring none, w)
  unfolding timer_uses timer_use timer_start timer_start_periodic timer_stop call has_value
  timer_uses-none [] w = refl
  timer_uses-none (starts time callback ∷ rest) w = timer_uses-none rest w
  timer_uses-none (starts_periodic time callback ∷ rest) w = timer_uses-none rest w
  timer_uses-none (stops ∷ rest) w = timer_uses-none rest w
