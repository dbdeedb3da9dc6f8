-- ===== src/Connection/Session/Stalled.antt =====
-- A connection after a failed write, with bytes still counted as under way: it starts no write any more
-- (src/connection.cpp).
use asyncgi.Connection.Session.Log.{close-log, issue-log}
use asyncgi.Connection.Defs.{
  on_read, Connection, send_data, disconnect, close, issue, on_bytes_written,
}
use asyncgi.Connection.Requests.{
  HttpResponse, responder_send_fastcgi, run_callbacks, lock, begin_request, process_request,
}
use asyncgi.Connection.Answers.{final_answer, expected, answer, final_event, process_request-answer}
use asyncgi.Response.Sender.{
  FcgiResponse, ResponseSender, Callback, callback_send, callback_disconnect, send_with_error,
}
use asyncgi.Response.Processor.{RequestProcessor, FastcgiResponse, Ending, threw, returned}
use asyncgi.Events.{ErrorEvent}
use asyncgi.Net.Outbox.{CloseErrors, writes_of, size_mod, event, sub_size, async_read_some}
use asyncgi.Connection.Session.{process_requests, AllValid}
use asyncgi.Common.{
  ℕ, ◌<◌, ◌≡◌, refl, sym, ◌∙◌, ◌≢◌, inl, inr, true, false, Option, none, some, List, [], ◌∷◌, arith,
  ◌==◌, Option-cases, Bytes,
}

module _ {ℓ} {Q R : Type ℓ} where
  -- `b` bytes are counted, and the running handler started no write.
  pub record Stuck (b : ℕ) (c : Connection Q R) : Type 0 where
    pub counted : c.outbox.bytes_to_write ≡ b
    pub no_writes : writes_of c.calls ≡ []

  send_data-Stuck :
      (d : Bytes) (b : ℕ) (c : Connection Q R) → b ≢ 0 → Stuck b c → Stuck b (send_data d c)
  unfolding send_data
  send_data-Stuck d b c busy h =
      let counted : c.outbox.bytes_to_write ≢ 0 = λ idle. busy (sym h.counted ∙ idle) in
      record { counted = ground (arith, h.counted); no_writes = ground (arith, h.no_writes) }

  pub close-Stuck : (e : CloseErrors) (b : ℕ) (c : Connection Q R) → Stuck b c → Stuck b (close e c)
  unfolding close
  close-Stuck e b c h = record {
    counted = ground (arith, h.counted);
    no_writes = close-log e c ∙ h.no_writes;
  }

  disconnect-Stuck :
      (e : CloseErrors) (b : ℕ) (c : Connection Q R) → b ≢ 0 → Stuck b c → Stuck b (disconnect e c)
  unfolding disconnect
  disconnect-Stuck e b c busy h =
      let counted : c.outbox.bytes_to_write ≢ 0 = λ idle. busy (sym h.counted ∙ idle) in
      record { counted = ground (arith, h.counted); no_writes = ground (arith, h.no_writes) }

  pub event-Stuck :
      (x : ErrorEvent) (m : Bytes) (b : ℕ) (c : Connection Q R)
      → Stuck b c
      → Stuck b (issue (event x m) c)
  event-Stuck x m b c h = record {
    counted = h.counted;
    no_writes = issue-log (event x m) c refl ∙ h.no_writes;
  }

  -- What completes then is an empty write.
  pub on_bytes_written-Stuck :
      (e : CloseErrors) (n b : ℕ) (c : Connection Q R)
      → b ≢ 0
      → b < size_mod
      → n ≡ 0
      → Stuck b c
      → Stuck b (on_bytes_written e n c)
  unfolding on_bytes_written
  on_bytes_written-Stuck e n b c busy small none_written h =
      let same : sub_size c.outbox.bytes_to_write n ≡ b = omega (arith, h.counted) in
      let goes_on : (b == 0) ≡ false = ground arith in
      rw (same, goes_on, on_bytes_written) (record { counted = refl; no_writes = h.no_writes })

module _ {ℓ} {Q F H : Type ℓ} (fcgi : FcgiResponse F) (http : HttpResponse H) (b : ℕ)
    (busy : b ≢ 0) where
  run_callbacks-Stuck :
      (e : CloseErrors) (callbacks : List Callback) (c : Connection Q (ResponseSender F))
      → Stuck b c
      → Stuck b (run_callbacks fcgi http e callbacks c)
  unfolding run_callbacks
  run_callbacks-Stuck e [] c h = h
  run_callbacks-Stuck e (callback_send d ∷ rest) c h =
      run_callbacks-Stuck e rest (send_data d c) (send_data-Stuck d b c busy h)
  run_callbacks-Stuck e (callback_disconnect ∷ rest) c h =
      run_callbacks-Stuck e rest (disconnect e c) (disconnect-Stuck e b c busy h)

  pub send-Stuck :
      (e : CloseErrors) (id : ℕ) (r : FastcgiResponse) (c : Connection Q (ResponseSender F))
      → Stuck b c
      → Stuck b (responder_send_fastcgi fcgi http e id r c)
  unfolding responder_send_fastcgi
  send-Stuck e id r c h = elim (Option-cases (lock fcgi http id c)) [
    | inl gone ↦ rw (gone, responder_send_fastcgi) h
    | inr (s, locked) ↦
        let (s', callbacks) = send_with_error fcgi r.response_data r.error_msg s in
        rw (locked, responder_send_fastcgi)
          (run_callbacks-Stuck e callbacks (record c { response_sender = some s' })
            (record { counted = h.counted; no_writes = h.no_writes }))
  ]

  answer-Stuck :
      (e : CloseErrors) (id : ℕ) (r : Option FastcgiResponse) (c : Connection Q (ResponseSender F))
      → Stuck b c
      → Stuck b (answer fcgi http e id r c)
  answer-Stuck e id none c h = h
  answer-Stuck e id (some r) c h = send-Stuck e id r c h

  final_event-Stuck :
      (t : Ending) (c : Connection Q (ResponseSender F))
      → Stuck b c
      → Stuck b (final_event fcgi http t c)
  final_event-Stuck returned c h = h
  final_event-Stuck (threw t) c h = event-Stuck _ _ b c h

  process_request-Stuck :
      {A : Type ℓ} (make_request : Q → A) (processor : RequestProcessor A H) (e : CloseErrors)
      (q : Q) (f : F) (c : Connection Q (ResponseSender F))
      → fcgi.is_valid f ≡ true
      → Stuck b c
      → Stuck b (process_request fcgi http make_request processor e q f c)
  unfolding begin_request
  process_request-Stuck make_request processor e q f c valid h =
      let (r, ending) = expected http processor (make_request q) in
      rw (process_request-answer fcgi http make_request processor e q f c valid) (
        final_event-Stuck ending _ (
          answer-Stuck e c.next_context (final_answer http (r, ending))
            (begin_request fcgi http q f c)
            (record { counted = h.counted; no_writes = h.no_writes })))

  process_requests-Stuck :
      {A : Type ℓ} (make_request : Q → A) (processor : RequestProcessor A H) (e : CloseErrors)
      (rs : List (Q × F)) (c : Connection Q (ResponseSender F))
      → AllValid fcgi http make_request processor rs
      → Stuck b c
      → Stuck b (process_requests fcgi http make_request processor e rs c)
  process_requests-Stuck make_request processor e [] c valid h = h
  process_requests-Stuck make_request processor e ((q, f) ∷ rest) c (valid, others) h =
      process_requests-Stuck make_request processor e rest _ others
        (process_request-Stuck make_request processor e q f c valid h)

  pub read-Stuck :
      {A : Type ℓ} (make_request : Q → A) (processor : RequestProcessor A H) (e : CloseErrors)
      (rs : List (Q × F)) (c : Connection Q (ResponseSender F))
      → AllValid fcgi http make_request processor rs
      → Stuck b c
      → Stuck b (on_read (λ d. process_requests fcgi http make_request processor e rs) e none [] c)
  unfolding on_read
  read-Stuck make_request processor e rs c valid h =
      let c' = process_requests fcgi http make_request processor e rs c in
      let h' = process_requests-Stuck make_request processor e rs c valid h in
      record { counted = h'.counted; no_writes = issue-log async_read_some c' refl ∙ h'.no_writes }
