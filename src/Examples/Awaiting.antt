-- ===== src/Examples/Awaiting.antt =====
-- examples/example_response_wait_future.cpp: a page that is sent when a future has its value. A value is
-- known by a number, and `text_of` is its text.
use asyncgi.Net.Outbox.{CloseErrors}
use asyncgi.Connection.Requests.{HttpResponse, responder_send_http, responder_is_sent}
use asyncgi.Connection.Defs.{Connection}
use asyncgi.Response.Sender.{FcgiResponse, ResponseSender}
use asyncgi.Timer.Service.{
  TimerCall, stop_queue, launch_queue, expires_after, async_wait, cancel, task, periodic,
  start_periodic, stop,
}
use asyncgi.Timer.Provider.{new_timer}
use asyncgi.Timer.Future.{
  Waiting, wait_future, poll, polls, running, ready, timer_callback, call_func, stop_timer,
}
use asyncgi.Connection.Answers.{IsCurrent, ask-IsCurrent}
use asyncgi.Router.Fallbacks.{send-finishes}
use asyncgi.Common.{
  ℕ, zero, suc, ◌≡◌, refl, sym, ap, ◌∙◌, true, false, Option, some, List, [], ◌∷◌, ◌++◌, append-nil,
  append_assoc, arith, Bytes, text,
}

-- What a request of the page changes: the timer that it makes, with the future, and the connection.
abbrev pub Awaiting {ℓ} : Type ℓ → Type ℓ → Type ℓ
Awaiting Q F = Waiting (Connection Q (ResponseSender F))

module _ {ℓ} {Q F H : Type ℓ} (fcgi : FcgiResponse F) (http : HttpResponse H) (page_of : Bytes → H)
    (text_of : ℕ → Bytes) where
  -- DelayedPage::operator(), while the Responder's context is alive, as it is in a request processor.
  unfoldable pub awaiting_page : Option ℕ → Connection Q (ResponseSender F) → Awaiting Q F
  unfolding wait_future
  awaiting_page queue c =
      wait_future 1
        (record { timer = new_timer queue; future = running; state = c; undefined = false })

  -- The callback of waitFuture
  unfoldable pub awaiting_send :
      CloseErrors → ℕ → ℕ → Connection Q (ResponseSender F) → Connection Q (ResponseSender F)
  awaiting_send e context value c =
      responder_send_http fcgi http e context (page_of (text "Hello " ++ text_of value)) c

abbrev pub with_value {ℓ} : {S : Type ℓ} → ℕ → Waiting S → Waiting S
with_value value w = record w { future = ready value }

-- The timer waits for the queue `q` with no value there yet.
abbrev WaitsOn {ℓ} : {S : Type ℓ} → ℕ → Waiting S → Type 0
WaitsOn q w = (w.future ≡ running) × (w.timer.request_processor_queue ≡ some q)

-- The calls of a number of waits
abbrev pub rounds : ℕ → ℕ → List TimerCall
rounds q zero = []
rounds q (suc n) = stop_queue q ∷ expires_after 1 ∷ async_wait (periodic 1 0) ∷ rounds q n

module _ {ℓ} {S : Type ℓ} (func : ℕ → S → S) where
  poll-waits :
      (q : ℕ) (w : Waiting S)
      → WaitsOn q w
      → WaitsOn q (poll func 1 w)
        × ((poll func 1 w).state ≡ w.state)
        × ((poll func 1 w).timer.calls ≡ w.timer.calls ++ rounds q 1)
  unfolding poll timer_callback wait_future start_periodic
  poll-waits q w (no_value, queue) =
      ((ground arith, ground arith), ground arith, rw (no_value, queue) (simp append_assoc))

  polls-wait :
      (q n : ℕ) (w : Waiting S)
      → WaitsOn q w
      → WaitsOn q (polls func 1 n w)
        × ((polls func 1 n w).state ≡ w.state)
        × ((polls func 1 n w).timer.calls ≡ w.timer.calls ++ rounds q n)
  unfolding polls
  polls-wait q zero w h = (h, refl, sym (append-nil w.timer.calls))
  polls-wait q (suc n) w h =
      let (h', same, calls) = poll-waits q w h in
      let (h'', same', calls') = polls-wait q n (poll func 1 w) h' in
      (
        h'',
        same' ∙ same,
        calls'
            ∙ ap (λ cs. cs ++ rounds q n) calls
            ∙ append_assoc w.timer.calls (rounds q 1) (rounds q n),
      )

  value-arrives :
      (q value : ℕ) (w : Waiting S)
      → WaitsOn q w
      → let y = poll func 1 (with_value value w) in
        (y.state ≡ func value w.state)
        × (y.timer.calls ≡ w.timer.calls ++ task value ∷ cancel ∷ launch_queue q ∷ rounds q 1)
        × ((poll func 1 y).undefined ≡ true)
  unfolding poll timer_callback call_func stop_timer wait_future start_periodic stop
  value-arrives q value w (no_value, queue) =
      (ground arith, rw queue (simp append_assoc), ground arith)

module _ {ℓ} {Q F H : Type ℓ} (fcgi : FcgiResponse F) (http : HttpResponse H) (page_of : Bytes → H)
    (text_of : ℕ → Bytes) where
  -- Where the request's context is alive and its response is not sent, and the timer has the queue `q`:
  -- however often the timer expires before the future has its value, nothing is sent, and the queue is
  -- stopped at each wait and not launched. When the timer expires with the value there, the function is
  -- called: at its end the response with the value is sent, and neither was the timer stopped nor the
  -- queue launched. After that the handler stops the timer and launches the queue, once; but then it
  -- stops the queue again and waits on, and when the timer expires after that, wait_for is called on a
  -- future without a state.
  pub page_waits_for_its_future :
      (e : CloseErrors) (context q n value : ℕ) (c : Connection Q (ResponseSender F))
      → IsCurrent fcgi http context false c
      → let send = awaiting_send fcgi http page_of text_of e context in
        let w = polls send 1 n (awaiting_page fcgi http page_of text_of (some q) c) in
        let called = call_func send value (with_value value w) in
        let y = poll send 1 (with_value value w) in
        (responder_is_sent fcgi http context w.state ≡ false)
        × (w.timer.calls ≡ rounds q (suc n))
        × (called.state
            ≡ responder_send_http fcgi http e context (page_of (text "Hello " ++ text_of value)) c)
        × (responder_is_sent fcgi http context called.state ≡ true)
        × (called.timer.calls ≡ rounds q (suc n) ++ task value ∷ [])
        × (y.state ≡ called.state)
        × (y.timer.calls ≡ called.timer.calls ++ cancel ∷ launch_queue q ∷ rounds q 1)
        × ((poll send 1 y).undefined ≡ true)
  unfolding awaiting_page awaiting_send wait_future start_periodic call_func
  page_waits_for_its_future e context q n value c current =
      let send = awaiting_send fcgi http page_of text_of e context in
      let x = awaiting_page fcgi http page_of text_of (some q) c in
      let w = polls send 1 n x in
      let (h, same, calls) = polls-wait send q n x (refl, refl) in
      let (answers, calls', undefined) = value-arrives send q value w h in
      let sent =
        send-finishes fcgi http e context false (page_of (text "Hello " ++ text_of value)) c
          current in
      (
        ap (responder_is_sent fcgi http context) same
            ∙ ask-IsCurrent fcgi http context false c current,
        calls,
        ap (send value) same,
        ap (λ s. responder_is_sent fcgi http context (send value s)) same ∙ sent,
        ap (λ cs. cs ++ task value ∷ []) calls,
        answers,
        calls' ∙ sym (append_assoc w.timer.calls (task value ∷ []) _),
        undefined,
      )
