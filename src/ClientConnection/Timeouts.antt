-- ===== src/ClientConnection/Timeouts.antt =====
-- The timeout of a request: makeRequest of src/clientservice.cpp starts a timer that runs
-- *cancelRequestOnTimeout, a function that does nothing until the handler of async_connect in
-- src/clientconnection.cpp gives it the handle of the request.
use asyncgi.Common.{
  ℕ, ◌+◌, ◌≡◌, refl, ◌∙◌, Bool, true, false, Option, none, some, List, [], ◌∷◌, ◌++◌, arith,
  if◌then◌else◌,
}
use asyncgi.ClientConnection.Defs.{Attempt, refused, requested}

pub record Timeout {ℓ} (Handle : Type ℓ) : Type ℓ where
  pub cancel_request_on_timeout : Option Handle
  -- whether the wait of responseTimeoutTimer is pending
  pub timer_armed : Bool
  -- the calls of cancelRequest(), and how often onResponseReceived was called
  pub cancelled : List Handle
  pub responses : ℕ

pub data RequestEvent {ℓ} (Handle : Type ℓ) : Type ℓ where
  connects : Attempt Handle → RequestEvent Handle
  responds : RequestEvent Handle
  expires : RequestEvent Handle

module _ {ℓ} {Handle : Type ℓ} where
  abbrev pub start_timeout : Timeout Handle
  start_timeout = record {
    cancel_request_on_timeout = none;
    timer_armed = true;
    cancelled = [];
    responses = 0;
  }

  -- onResponseReceived, as far as the timer goes.
  unfoldable pub respond : Timeout Handle → Timeout Handle
  respond t = record t { timer_armed = false; responses = t.responses + 1 }

  -- The handler of async_connect, as far as the timeout goes.
  unfoldable pub connected : Attempt Handle → Timeout Handle → Timeout Handle
  unfolding respond
  connected refused t = respond t
  connected (requested handle) t = record t { cancel_request_on_timeout = some handle }

  -- The pending wait of the timer expires; the timer is idle after that.
  unfoldable pub expire : Timeout Handle → Timeout Handle
  expire t =
      if t.timer_armed
      then elim t.cancel_request_on_timeout [
        | none ↦ record t { timer_armed = false }
        | some handle ↦ record t { timer_armed = false; cancelled = t.cancelled ++ handle ∷ [] }
      ]
      else t

  abbrev happen : RequestEvent Handle → Timeout Handle → Timeout Handle
  happen (connects a) t = connected a t
  happen responds t = respond t
  happen expires t = expire t

  unfoldable pub happen_all : List (RequestEvent Handle) → Timeout Handle → Timeout Handle
  happen_all [] t = t
  happen_all (e ∷ rest) t = happen_all rest (happen e t)

  happen-idle :
      (e : RequestEvent Handle) (t : Timeout Handle)
      → t.timer_armed ≡ false
      → ((happen e t).timer_armed ≡ false) × ((happen e t).cancelled ≡ t.cancelled)
  unfolding connected respond expire
  happen-idle (connects refused) t h = (refl, refl)
  happen-idle (connects (requested handle)) t h = (h, refl)
  happen-idle responds t h = (refl, refl)
  happen-idle expires t h = (ground arith, ground arith)

  idle-cancelled :
      (es : List (RequestEvent Handle)) (t : Timeout Handle)
      → t.timer_armed ≡ false
      → (happen_all es t).cancelled ≡ t.cancelled
  unfolding happen_all
  idle-cancelled [] t h = refl
  idle-cancelled (e ∷ rest) t h =
      let (still, same) = happen-idle e t h in idle-cancelled rest (happen e t) still ∙ same

  -- If the timeout of a request expires after its connection is made and before a response, it
  -- cancels that request, once, whatever connects, responds or expires later. If it expires while the
  -- connection is being made, or after a response, nothing is cancelled, and nothing that connects,
  -- responds or expires later makes up for it.
  pub timeout_cancels_once :
      (handle : Handle) (rest : List (RequestEvent Handle))
      → ((happen_all (connects (requested handle) ∷ expires ∷ rest) start_timeout).cancelled
          ≡ handle ∷ [])
        × ((happen_all (expires ∷ rest) start_timeout).cancelled ≡ [])
        × ((happen_all (connects (requested handle) ∷ responds ∷ rest) start_timeout).cancelled
            ≡ [])
  unfolding happen_all connected expire respond
  timeout_cancels_once handle rest =
      (idle-cancelled rest _ refl, idle-cancelled rest _ refl, idle-cancelled rest _ refl)
