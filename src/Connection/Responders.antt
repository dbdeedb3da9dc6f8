-- ===== src/Connection/Responders.antt =====
-- Who may still answer a request once Connection::processRequest is over.
use asyncgi.Connection.Answers.{
  final_answer, IsCurrent, lock_split, answer, final_event, expected, send-IsCurrent,
  process_request-answer, send_again, begin-IsCurrent,
}
use asyncgi.Connection.Defs.{Connection}
use asyncgi.Net.Outbox.{CloseErrors}
use asyncgi.Connection.Requests.{
  HttpResponse, lock, responder_send_fastcgi, responder_is_sent, process_request,
}
use asyncgi.Response.Sender.{FcgiResponse, ResponseSender}
use asyncgi.Common.{ℕ, ◌≡◌, refl, subst, ◌≢◌, Bool, true, false, Option, none, some, arith, is_some}
use asyncgi.Response.Processor.{returned, threw, RequestProcessor, FastcgiResponse, Ending}

module _ {ℓ} {Q F H : Type ℓ} (fcgi : FcgiResponse F) (http : HttpResponse H) where
  answer-IsCurrent :
      (e : CloseErrors) (id : ℕ) (r : Option FastcgiResponse) (c : Connection Q (ResponseSender F))
      → IsCurrent fcgi http id false c
      → IsCurrent fcgi http id (is_some r) (answer fcgi http e id r c)
  answer-IsCurrent e id none c h = h
  answer-IsCurrent e id (some r) c h = send-IsCurrent fcgi http e id r false c h

  event-IsCurrent :
      (t : Ending) (id : ℕ) (out : Bool) (c : Connection Q (ResponseSender F))
      → IsCurrent fcgi http id out c
      → IsCurrent fcgi http id out (final_event fcgi http t c)
  unfolding lock
  event-IsCurrent returned id out c h = h
  event-IsCurrent (threw t) id out c h = record {
    sender = h.sender;
    locked = h.locked;
    is_out = h.is_out;
  }

  process_request-IsCurrent :
      {A : Type ℓ} (make_request : Q → A) (processor : RequestProcessor A H) (e : CloseErrors)
      (q : Q) (f : F) (c : Connection Q (ResponseSender F))
      → fcgi.is_valid f ≡ true
      → IsCurrent fcgi http c.next_context
          (is_some (final_answer http (expected http processor (make_request q))))
          (process_request fcgi http make_request processor e q f c)
  process_request-IsCurrent make_request processor e q f c valid =
      rw (process_request-answer fcgi http make_request processor e q f c valid) (
        event-IsCurrent _ c.next_context _ _
          (answer-IsCurrent e c.next_context _ _ (begin-IsCurrent fcgi http q f c valid)))

  -- Where the response was valid and the processing of the request has sent an answer, a later send of
  -- a responder to that request changes nothing.
  pub answered_once :
      {A : Type ℓ} (make_request : Q → A) (processor : RequestProcessor A H) (e : CloseErrors)
      (q : Q) (f : F) (c : Connection Q (ResponseSender F)) (r : FastcgiResponse)
      → fcgi.is_valid f ≡ true
      → is_some (final_answer http (expected http processor (make_request q))) ≡ true
      → responder_send_fastcgi fcgi http e c.next_context r
          (process_request fcgi http make_request processor e q f c)
        ≡ process_request fcgi http make_request processor e q f c
  answered_once make_request processor e q f c r valid out =
      send_again fcgi http e c.next_context r _ (
        subst
          (λ (b : Bool).
            IsCurrent fcgi http c.next_context b
              (process_request fcgi http make_request processor e q f c))
          out (process_request-IsCurrent make_request processor e q f c valid))

  pub lock_stale :
      (id alive : ℕ) (c : Connection Q (ResponseSender F)) {s : ResponseSender F}
      → lock fcgi http alive c ≡ some s
      → id ≢ alive
      → lock fcgi http id c ≡ none
  unfolding lock
  lock_stale id alive c h other = rw ((lock_split fcgi http alive c h).0, lock) (ground arith)

  -- Where the response was valid, a responder to any other request of the connection sends nothing
  -- once a new request was processed, and says that its response is sent.
  pub stale_responder :
      {A : Type ℓ} (make_request : Q → A) (processor : RequestProcessor A H) (e : CloseErrors)
      (q : Q) (f : F) (c : Connection Q (ResponseSender F)) (id : ℕ) (r : FastcgiResponse)
      → fcgi.is_valid f ≡ true
      → id ≢ c.next_context
      → (responder_send_fastcgi fcgi http e id r
            (process_request fcgi http make_request processor e q f c)
          ≡ process_request fcgi http make_request processor e q f c)
        × (responder_is_sent fcgi http id (process_request fcgi http make_request processor e q f c)
            ≡ true)
  unfolding responder_send_fastcgi responder_is_sent
  stale_responder make_request processor e q f c id r valid other =
      let current = process_request-IsCurrent make_request processor e q f c valid in
      let gone =
        lock_stale id c.next_context (process_request fcgi http make_request processor e q f c)
          current.locked other in
      (rw (gone, responder_send_fastcgi) refl, rw (gone, responder_is_sent) refl)
