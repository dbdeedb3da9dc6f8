-- ===== src/Timer/Future.antt =====
-- Timer::waitFuture (include/asyncgi/timer.h): a periodic timer that polls a std::future.
use asyncgi.Common.{ℕ, zero, suc, Bool, true}
use asyncgi.Timer.Service.{TimerService, start_periodic, stop, issue, task}

-- A std::future. `get()` leaves it without a state, and `wait_for` then has no defined behaviour.
pub data Future : Type 0 where
  running : Future
  ready : ℕ → Future
  taken : Future

-- A timer with a future that it waits for, what the callback's function works on, and whether
-- `wait_for` was called on a future without a state.
pub record Waiting {ℓ} (S : Type ℓ) : Type ℓ where
  pub timer : TimerService
  pub future : Future
  pub state : S
  pub undefined : Bool

unfoldable pub wait_future {ℓ} : {S : Type ℓ} → ℕ → Waiting S → Waiting S
unfolding start_periodic
wait_future check_period w = record w { timer = start_periodic check_period 0 w.timer }

module _ {ℓ} {S : Type ℓ} (func : ℕ → S → S) where
  -- func(fut.get()); the call is in the log of the timer, in its order among the calls on it.
  unfoldable pub call_func : ℕ → Waiting S → Waiting S
  call_func value w = record w {
    future = taken;
    state = func value w.state;
    timer = issue (task value) w.timer;
  }

  -- stopTimer(), which is TimerService::stop of the same timer
  unfoldable pub stop_timer : Waiting S → Waiting S
  unfolding stop
  stop_timer w = record w { timer = stop w.timer }

  unfoldable pub timer_callback : Waiting S → Waiting S
  unfolding call_func stop_timer
  timer_callback w = elim w.future [
    | running ↦ w
    | ready value ↦ stop_timer (call_func value w)
    | taken ↦ record w { undefined = true }
  ]

  -- The wait expires: the handler in startPeriodic runs the callback and waits again.
  unfoldable pub poll : ℕ → Waiting S → Waiting S
  unfolding timer_callback wait_future
  poll check_period w = wait_future check_period (timer_callback w)

  unfoldable pub polls : ℕ → ℕ → Waiting S → Waiting S
  polls check_period zero w = w
  polls check_period (suc n) w = polls check_period n (poll check_period w)
