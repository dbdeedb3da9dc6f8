-- ===== src/Connection/Answers.antt =====
-- What a request is answered with, and by whom.
use asyncgi.Events.{request_processing_error}
use asyncgi.Connection.Defs.{Connection, disconnect, send_data, issue}
use asyncgi.Net.Outbox.{CloseErrors, event}
use asyncgi.Response.Sender.{
  FcgiResponse, Callback, ResponseSender, send, send_with_error-sent, callback_send, is_sent,
  callback_disconnect, send_with_error, is_sent-send_with_error,
}
use asyncgi.Connection.Requests.{
  HttpResponse, lock, run, responder_send_http, responder_send_fastcgi, run_callbacks,
  process_request, responder_is_sent, begin_request, what, handle,
}
use asyncgi.Common.{
  ℕ, ◌≡◌, refl, ◌∙◌, Bool, true, false, Option, none, some, List, [], ◌∷◌, arith, if◌then◌else◌,
  Bytes,
}
use asyncgi.Response.Processor.{
  done, send_http, send_fastcgi, ask_sent, returned, threw, Script, FastcgiResponse, Ending,
  RequestProcessor, Returns, responding, returning_http, returning_fastcgi, returns, throws, invoke,
}

-- What the first send of a run carries, if there is one, and how the run ends; the flag says
-- whether a response is out already.
abbrev pub outcome {ℓ} :
    {H : Type ℓ} → HttpResponse H → Script H → Bool → Option FastcgiResponse × Ending
outcome http (done ending) out = (none, ending)
outcome http (send_http h rest) out = (
  (if out
      then (outcome http rest true).0
      else some (record { response_data = http.cgi_data h; error_msg = [] })),
  (outcome http rest true).1,
)
outcome http (send_fastcgi r rest) out =
    ((if out then (outcome http rest true).0 else some r), (outcome http rest true).1)
outcome http (ask_sent rest) out = outcome http (rest out) out

abbrev pub returned_http {ℓ} :
    {H : Type ℓ} → HttpResponse H → Returns H → Option FastcgiResponse × Ending
returned_http http (returns h) =
    (some (record { response_data = http.cgi_data h; error_msg = [] }), returned)
returned_http http (throws t) = (none, threw t)

abbrev pub returned_fastcgi : Returns FastcgiResponse → Option FastcgiResponse × Ending
returned_fastcgi (returns r) = (some r, returned)
returned_fastcgi (throws t) = (none, threw t)

-- What user code of each of the three signatures is for: the first response that it sends with its
-- Responder; the http::Response that it returns; the fastcgi response that it returns.
abbrev pub expected {ℓ κ} :
    {A : Type ℓ} {H : Type κ}
    → HttpResponse H
    → RequestProcessor A H
    → A
    → Option FastcgiResponse × Ending
expected http (responding f) a = outcome http (f a) false
expected http (returning_http f) a = returned_http http (f a)
expected http (returning_fastcgi f) a = returned_fastcgi (f a)

returned_http-outcome {ℓ} :
    {H : Type ℓ} (http : HttpResponse H) (r : Returns H)
    → outcome http (invoke (returning_http (λ (u : Unit {0}). r)) tt) false ≡ returned_http http r
unfolding invoke
returned_http-outcome http (returns h) = refl
returned_http-outcome http (throws t) = refl

returned_fastcgi-outcome {ℓ} :
    {H : Type ℓ} (http : HttpResponse H) (r : Returns FastcgiResponse)
    → outcome http (invoke (returning_fastcgi (λ (u : Unit {0}). r)) tt) false ≡ returned_fastcgi r
unfolding invoke
returned_fastcgi-outcome http (returns r) = refl
returned_fastcgi-outcome http (throws t) = refl

invoke-expected {ℓ κ} :
    {A : Type ℓ} {H : Type κ} (http : HttpResponse H) (processor : RequestProcessor A H) (a : A)
    → outcome http (invoke processor a) false ≡ expected http processor a
unfolding invoke
invoke-expected http (responding f) a = refl
invoke-expected http (returning_http f) a = returned_http-outcome http (f a)
invoke-expected http (returning_fastcgi f) a = returned_fastcgi-outcome http (f a)

-- What answers a request: the first response that the user code sends, or status 500 if it throws
-- before that. A run that ends without sending leaves the answer to a later send.
abbrev pub final_answer {ℓ} :
    {H : Type ℓ} → HttpResponse H → Option FastcgiResponse × Ending → Option FastcgiResponse
final_answer http (some r, ending) = some r
final_answer http (none, returned) = none
final_answer http (none, threw t) =
    some (record { response_data = http.cgi_data (http.of_status 500); error_msg = [] })

module _ {ℓ} {Q F H : Type ℓ} (fcgi : FcgiResponse F) (http : HttpResponse H) where
  -- The context is alive, and its response is out or not.
  pub record IsCurrent (id : ℕ) (out : Bool) (c : Connection Q (ResponseSender F)) : Type ℓ where
    pub sender : ResponseSender F
    pub locked : lock fcgi http id c ≡ some sender
    pub is_out : is_sent fcgi sender ≡ out

  abbrev pub answer :
      CloseErrors
      → ℕ
      → Option FastcgiResponse
      → Connection Q (ResponseSender F)
      → Connection Q (ResponseSender F)
  answer e id none c = c
  answer e id (some r) c = responder_send_fastcgi fcgi http e id r c

  send_data-fields :
      (d : Bytes) (c : Connection Q (ResponseSender F))
      → ((send_data d c).response_context ≡ c.response_context)
        × ((send_data d c).response_sender ≡ c.response_sender)
  unfolding send_data
  send_data-fields d c = (ground arith, ground arith)

  disconnect-fields :
      (e : CloseErrors) (c : Connection Q (ResponseSender F))
      → ((disconnect e c).response_context ≡ c.response_context)
        × ((disconnect e c).response_sender ≡ c.response_sender)
  unfolding disconnect
  disconnect-fields e c = (ground arith, ground arith)

  pub run_callbacks-fields :
      (e : CloseErrors) (callbacks : List Callback) (c : Connection Q (ResponseSender F))
      → ((run_callbacks fcgi http e callbacks c).response_context ≡ c.response_context)
        × ((run_callbacks fcgi http e callbacks c).response_sender ≡ c.response_sender)
  unfolding run_callbacks
  run_callbacks-fields e [] c = (refl, refl)
  run_callbacks-fields e (callback_send d ∷ rest) c =
      let (a, b) = run_callbacks-fields e rest (send_data d c) in
      let (x, y) = send_data-fields d c in (a ∙ x, b ∙ y)
  run_callbacks-fields e (callback_disconnect ∷ rest) c =
      let (a, b) = run_callbacks-fields e rest (disconnect e c) in
      let (x, y) = disconnect-fields e c in (a ∙ x, b ∙ y)

  pub send_http-send_fastcgi :
      (e : CloseErrors) (id : ℕ) (h : H) (c : Connection Q (ResponseSender F))
      → responder_send_http fcgi http e id h c
        ≡ responder_send_fastcgi fcgi http e id
            (record { response_data = http.cgi_data h; error_msg = [] })
            c
  unfolding responder_send_http responder_send_fastcgi send
  send_http-send_fastcgi e id h c = refl

  pub lock_split :
      (id : ℕ) (c : Connection Q (ResponseSender F)) {s : ResponseSender F}
      → lock fcgi http id c ≡ some s
      → (c.response_context ≡ some id) × (c.response_sender ≡ some s)
  unfolding lock
  lock_split id c h = (ground arith, ground arith)

  pub lock_join :
      (id : ℕ) (c : Connection Q (ResponseSender F)) {s : ResponseSender F}
      → c.response_context ≡ some id
      → c.response_sender ≡ some s
      → lock fcgi http id c ≡ some s
  unfolding lock
  lock_join id c h k = ground arith

  pub send-IsCurrent :
      (e : CloseErrors) (id : ℕ) (r : FastcgiResponse) (out : Bool)
      (c : Connection Q (ResponseSender F))
      → IsCurrent id out c
      → IsCurrent id true (responder_send_fastcgi fcgi http e id r c)
  unfolding responder_send_fastcgi
  send-IsCurrent e id r out c h =
      rw (h.locked, responder_send_fastcgi)
        (record {
          sender = (send_with_error fcgi r.response_data r.error_msg h.sender).0;
          locked =
              let (callbacks, c') = spent in
              lock_join id (run_callbacks fcgi http e callbacks c')
                ((run_callbacks-fields e callbacks c').0 ∙ (lock_split id c h.locked).0)
                (run_callbacks-fields e callbacks c').1;
          is_out = is_sent-send_with_error fcgi r.response_data r.error_msg h.sender;
        })
    where
      spent : List Callback × Connection Q (ResponseSender F)
      spent = (
        (send_with_error fcgi r.response_data r.error_msg h.sender).1,
        record c {
          response_sender = some (send_with_error fcgi r.response_data r.error_msg h.sender).0;
        },
      )

  pub send_again :
      (e : CloseErrors) (id : ℕ) (r : FastcgiResponse) (c : Connection Q (ResponseSender F))
      → IsCurrent id true c
      → responder_send_fastcgi fcgi http e id r c ≡ c
  unfolding responder_send_fastcgi run_callbacks
  send_again e id r c h =
      rw (h.locked, responder_send_fastcgi)
        (rw (send_with_error-sent fcgi r.response_data r.error_msg h.sender h.is_out)
          (ground (arith, (lock_split id c h.locked).1)))

  pub ask-IsCurrent :
      (id : ℕ) (out : Bool) (c : Connection Q (ResponseSender F))
      → IsCurrent id out c
      → responder_is_sent fcgi http id c ≡ out
  unfolding responder_is_sent
  ask-IsCurrent id out c h = rw (h.locked, responder_is_sent) h.is_out

  run-out :
      (e : CloseErrors) (id : ℕ) (s : Script H) (c : Connection Q (ResponseSender F))
      → IsCurrent id true c
      → run fcgi http e id s c ≡ ((outcome http s true).1, c)
  unfolding run
  run-out e id (done ending) c h = refl
  run-out e id (send_http x rest) c h =
      rw (send_http-send_fastcgi, send_again e id _ c h) (run-out e id rest c h)
  run-out e id (send_fastcgi r rest) c h = rw (send_again e id r c h) (run-out e id rest c h)
  run-out e id (ask_sent rest) c h = rw (ask-IsCurrent id true c h) (run-out e id (rest true) c h)

  -- A run of user code sends what its first send carries, and nothing else.
  run-answer :
      (e : CloseErrors) (id : ℕ) (s : Script H) (c : Connection Q (ResponseSender F))
      → IsCurrent id false c
      → run fcgi http e id s c ≡ ((outcome http s false).1, answer e id (outcome http s false).0 c)
  unfolding run
  run-answer e id (done ending) c h = refl
  run-answer e id (send_http x rest) c h =
      rw send_http-send_fastcgi (run-out e id rest _ (send-IsCurrent e id _ false c h))
  run-answer e id (send_fastcgi r rest) c h = run-out e id rest _ (send-IsCurrent e id r false c h)
  run-answer e id (ask_sent rest) c h =
      rw (ask-IsCurrent id false c h) (run-answer e id (rest false) c h)

  abbrev pub final_event :
      Ending → Connection Q (ResponseSender F) → Connection Q (ResponseSender F)
  final_event returned c = c
  final_event (threw t) c = issue (event request_processing_error (what t)) c

  pub begin-IsCurrent :
      (q : Q) (f : F) (c : Connection Q (ResponseSender F))
      → fcgi.is_valid f ≡ true
      → IsCurrent c.next_context false (begin_request fcgi http q f c)
  unfolding begin_request lock is_sent
  begin-IsCurrent q f c h = record {
    sender = record { response = f };
    locked = ground arith;
    is_out = rw h refl;
  }

  handle-answer :
      (e : CloseErrors) (id : ℕ) (r : Option FastcgiResponse) (t : Ending)
      (c : Connection Q (ResponseSender F))
      → IsCurrent id false c
      → handle fcgi http e id (t, answer e id r c)
        ≡ final_event t (answer e id (final_answer http (r, t)) c)
  unfolding handle
  handle-answer e id (some r) returned c h = refl
  handle-answer e id (some r) (threw t) c h =
      rw (send_http-send_fastcgi, send_again e id _ _ (send-IsCurrent e id r false c h)) refl
  handle-answer e id none returned c h = refl
  handle-answer e id none (threw t) c h = rw send_http-send_fastcgi refl

  -- Where the new response is valid: processing a request sends the first response that user code sent
  -- with its Responder, or the http or fastcgi response that user code of the other two signatures
  -- returned, or, where it threw before either, the status 500; nothing else is sent, and an exception
  -- is reported after that.
  pub process_request-answer :
      {A : Type ℓ} (make_request : Q → A) (processor : RequestProcessor A H) (e : CloseErrors)
      (q : Q) (f : F) (c : Connection Q (ResponseSender F))
      → fcgi.is_valid f ≡ true
      → process_request fcgi http make_request processor e q f c
        ≡ final_event (expected http processor (make_request q)).1 (
            answer e c.next_context
              (final_answer http (expected http processor (make_request q)))
              (begin_request fcgi http q f c))
  unfolding process_request
  process_request-answer make_request processor e q f c valid =
      let current = begin-IsCurrent q f c valid in
      rw
        (
          run-answer e c.next_context (invoke processor (make_request q)) _ current,
          invoke-expected http processor (make_request q),
        )
        (handle-answer e c.next_context _ _ (begin_request fcgi http q f c) current)
