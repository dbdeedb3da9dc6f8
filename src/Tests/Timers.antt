-- ===== src/Tests/Timers.antt =====
-- src/timerservice.cpp and Timer::waitFuture at concrete inputs.
use asyncgi.Timer.Future.{Waiting, ready, poll, timer_callback, call_func, stop_timer, wait_future}
use asyncgi.Common.{ℕ, zero, suc, ◌≡◌, refl, false, some, List, [], ◌∷◌, ◌++◌}
use asyncgi.Timer.Service.{
  TimerService, periodic, stop, start, start_periodic, fire, task, cancel, launch_queue, stop_queue,
  expires_after, async_wait,
}

-- Callback 0 stops its timer, and any other starts it anew.
abbrev perform : ℕ → TimerService → TimerService
perform zero s = stop s
perform (suc n) s = start 5 n s

abbrev ticking : TimerService
ticking = record { request_processor_queue = some 9; armed = some (periodic 10 0); calls = [] }

-- The periodic timer that its callback stops waits again.
fire_run :
    (fire perform false ticking).calls
    ≡ task 0
      ∷ cancel
      ∷ launch_queue 9
      ∷ stop_queue 9
      ∷ expires_after 10
      ∷ async_wait (periodic 10 0)
      ∷ []
unfolding fire stop start_periodic
fire_run = refl

abbrev keep : ℕ → List ℕ → List ℕ
keep value values = values ++ value ∷ []

abbrev has_value : Waiting (List ℕ)
has_value = record { timer = ticking; future = ready 7; state = []; undefined = false }

-- The function gets the value before the timer is stopped.
poll_run :
    ((poll keep 1 has_value).state ≡ 7 ∷ [])
    × ((poll keep 1 has_value).timer.calls
        ≡ task 7
          ∷ cancel
          ∷ launch_queue 9
          ∷ stop_queue 9
          ∷ expires_after 1
          ∷ async_wait (periodic 1 0)
          ∷ [])
unfolding poll timer_callback call_func stop_timer wait_future stop start_periodic
poll_run = (refl, refl)
