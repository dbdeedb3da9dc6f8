-- ===== src/Timer/Service.antt =====
-- TimerService (src/timerservice.h, src/timerservice.cpp). A callback is known by a number, and
-- `perform` is what it does to the timer that runs it: it may call the timer's own operations.
use asyncgi.Common.{
  ℕ, ◌≡◌, refl, Bool, true, false, Option, none, some, List, [], ◌∷◌, ◌++◌, arith, if◌then◌else◌,
}

pub data Wait : Type 0 where
  once : ℕ → Wait
  periodic : ℕ → ℕ → Wait

-- Calls on the asio::steady_timer and on whaleroute's RequestProcessorQueue.
pub data TimerCall : Type 0 where
  expires_after : ℕ → TimerCall
  async_wait : Wait → TimerCall
  cancel : TimerCall
  stop_queue : ℕ → TimerCall
  launch_queue : ℕ → TimerCall
  task : ℕ → TimerCall

-- `armed` is the wait that is pending. asio's expires_after and cancel end each pending wait with an
-- error.
pub record TimerService : Type 0 where
  pub request_processor_queue : Option ℕ
  pub armed : Option Wait
  pub calls : List TimerCall

abbrev pub issue : TimerCall → TimerService → TimerService
issue call s = record s { calls = s.calls ++ call ∷ [] }

abbrev pub on_queue : (ℕ → TimerCall) → TimerService → TimerService
on_queue call s = elim s.request_processor_queue [ none ↦ s | some q ↦ issue (call q) s ]

arm : ℕ → Wait → TimerService → TimerService
arm time wait s = record (issue (async_wait wait) (issue (expires_after time) s)) {
  armed = some wait;
}

unfoldable pub start : ℕ → ℕ → TimerService → TimerService
unfolding arm
start time callback s = arm time (once callback) (on_queue stop_queue s)

unfoldable pub start_periodic : ℕ → ℕ → TimerService → TimerService
unfolding arm
start_periodic time callback s = arm time (periodic time callback) (on_queue stop_queue s)

unfoldable pub stop : TimerService → TimerService
stop s = on_queue launch_queue (record (issue cancel s) { armed = none })

module _ (perform : ℕ → TimerService → TimerService) where
  -- The handlers of the waits; the flag says that the wait ended with an error.
  unfoldable pub on_wait_once : Bool → ℕ → TimerService → TimerService
  unfolding stop
  on_wait_once ec callback s = if ec then s else stop (perform callback (issue (task callback) s))

  unfoldable pub on_wait_periodic : Bool → ℕ → ℕ → TimerService → TimerService
  unfolding start_periodic
  on_wait_periodic ec time callback s =
      if ec then s else start_periodic time callback (perform callback (issue (task callback) s))

  -- The pending wait expires, or ends with an error.
  unfoldable pub fire : Bool → TimerService → TimerService
  unfolding on_wait_once on_wait_periodic
  fire ec s = elim s.armed [
    | none ↦ s
    | some wait ↦ elim wait [
      | once callback ↦ on_wait_once ec callback (record s { armed = none })
      | periodic time callback ↦ on_wait_periodic ec time callback (record s { armed = none })
    ]
  ]

  -- After a periodic timer's wait expires without an error, it waits again for the same time and
  -- callback, whatever the callback did: in particular where it called stop() of the timer.
  pub periodic_cannot_stop_itself :
      (time callback : ℕ) (s : TimerService)
      → s.armed ≡ some (periodic time callback)
      → (fire false s).armed ≡ some (periodic time callback)
  unfolding fire
  periodic_cannot_stop_itself time callback s h = rw (h, fire) refl

  -- A one-shot timer runs its callback and is then idle, whatever the callback did, also where it
  -- started the timer anew; and a timer that was stopped, of either kind, runs nothing.
  pub one_shot_ends :
      (time callback : ℕ) (s : TimerService)
      → ((fire false (start time callback s)).armed ≡ none)
        × (fire true (stop s) ≡ stop s)
        × (fire false (stop s) ≡ stop s)
  unfolding fire start stop
  one_shot_ends time callback s = (ground arith, ground arith, ground arith)
