-- ===== src/Examples/Forwarding.antt =====
-- examples/example_client_in_processor.cpp: a page that asks another application, and sends what that
-- answers. `body` is http::ResponseView::body(), and `root_request` the request for "/".
use asyncgi.Facade.Holder.{call, referring, has_value, get}
use asyncgi.Events.{request_processing_error}
use asyncgi.Router.Fallbacks.{send-finishes}
use asyncgi.Connection.Answers.{IsCurrent, ask-IsCurrent}
use asyncgi.Connection.Defs.{Connection}
use asyncgi.ClientService.Requests.{
  on_response_received, make_local_http_request, call_handler, begin, connect_to, reply,
}
use asyncgi.Net.Outbox.{CloseErrors}
use asyncgi.Examples.Delayed.{Exchange, both}
use asyncgi.ClientService.Defs.{
  FastcgiRequest, ResponseData, ClientCall, stop_timer, ClientService, http_form, stop_queue,
  launch_queue, handle, report, start_timer, connect, local, http_reply,
}
use asyncgi.Connection.Requests.{HttpResponse, responder_send_http, responder_is_sent}
use asyncgi.Response.Sender.{FcgiResponse, ResponseSender}
use asyncgi.Common.{
  ℕ, ◌≡◌, refl, ap, inl, inr, Bool, true, false, Option, none, some, List, [], ◌∷◌, ◌++◌,
  append_assoc, arith, if◌then◌else◌, Bool-cases, Bytes, text, is_empty,
}
use asyncgi.Facade.Defs.{Services, client_of_responder, client_make_local_http_request, at_client}

module _ {ℓ} {V : Type ℓ} (response_from_string : Bytes → V) where
  abbrev pub view_of : Option ResponseData → Option V
  view_of none = none
  view_of (some r) = some (response_from_string r.response_data)

  -- What the client calls for its answer.
  abbrev pub answer_calls : ℕ → Option ResponseData → List (ClientCall V)
  answer_calls id none = stop_timer id ∷ handle id none ∷ []
  answer_calls id (some r) =
      (stop_timer id
        ∷ (if is_empty r.error_msg then [] else report request_processing_error r.error_msg ∷ []))
      ++ handle id (some (http_reply (response_from_string r.response_data))) ∷ []

  answered-calls :
      (id q : ℕ) (response : Option ResponseData) (s : ClientService V)
      → s.request_processor_queue ≡ some q
      → (on_response_received response_from_string id http_form response s).calls
        ≡ s.calls ++ answer_calls id response ++ launch_queue q ∷ []
  unfolding on_response_received call_handler reply
  answered-calls id q none s h = rw (h, on_response_received) (simp append_assoc)
  answered-calls id q (some r) s h = elim (Bool-cases (is_empty r.error_msg)) [
    | inl e ↦ rw (e, h, on_response_received) (simp append_assoc)
    | inr e ↦ rw (e, h, on_response_received) (simp append_assoc)
  ]

module _ {ℓ} {V A : Type ℓ} (to_fcgi_data : A → FastcgiRequest) (root_request : A) where
  abbrev pub client_requests : ClientService V → ClientService V
  client_requests = make_local_http_request to_fcgi_data (text "/tmp/fcgi.sock") root_request 3000

  requested-calls :
      (q : ℕ) (s : ClientService V)
      → s.request_processor_queue ≡ some q
      → ((client_requests s).calls
          ≡ s.calls
            ++ stop_queue q ∷ []
            ++ start_timer s.next_request 3000 ∷ []
            ++ connect s.next_request (local (text "/tmp/fcgi.sock")) (to_fcgi_data root_request)
              ∷ [])
        × ((client_requests s).request_processor_queue ≡ some q)
  unfolding make_local_http_request begin connect_to
  requested-calls q s h =
      (rw (h, make_local_http_request) refl, rw (h, make_local_http_request) refl)

-- What is on the page when the other application has answered, or has not.
abbrev pub expected_page {ℓ} :
    {V : Type ℓ} → (Bytes → V) → (V → Bytes) → Option ResponseData → Bytes
expected_page response_from_string body none = text "No response"
expected_page response_from_string body (some r) = body (response_from_string r.response_data)

live-client {ℓ} :
    {V : Type ℓ} (w : Services V)
    → w.context_alive ≡ true
    → client_of_responder w ≡ referring (some tt)
unfolding client_of_responder
live-client w live = ground arith

module _ {ℓ} {V Q F H A : Type ℓ} (fcgi : FcgiResponse F) (http : HttpResponse H)
    (page_of : Bytes → H) (to_fcgi_data : A → FastcgiRequest) (root_request : A)
    (response_from_string : Bytes → V) (body : V → Bytes) where
  -- RequestPage::operator(), with the timeout that makeRequest has by default, in milliseconds; `none`
  -- where it would be undefined.
  unfoldable pub request_page : Exchange V Q F → Option (Exchange V Q F)
  unfolding client_of_responder client_make_local_http_request
  request_page x =
      elim (client_make_local_http_request to_fcgi_data (text "/tmp/fcgi.sock") root_request 3000
          (client_of_responder x.services, x.services))
        as (λ _. Option (Exchange V Q F)) [
          | none ↦ none
          | some (c, w) ↦ some (record x { services = w })
        ]

  -- The handler of the response
  unfoldable pub forward :
      CloseErrors → ℕ → Option V → Connection Q (ResponseSender F) → Connection Q (ResponseSender F)
  unfolding responder_send_http
  forward e context none c =
      responder_send_http fcgi http e context (page_of (text "No response")) c
  forward e context (some response) c =
      responder_send_http fcgi http e context (page_of (body response)) c

  -- The client gets the response, or none: it calls the handler.
  unfoldable pub request_page_answered :
      CloseErrors → ℕ → ℕ → Option ResponseData → Exchange V Q F → Exchange V Q F
  unfolding forward on_response_received
  request_page_answered e context id response x = record x {
    services =
        at_client tt (on_response_received response_from_string id http_form response) x.services;
    connection = forward e context (view_of response_from_string response) x.connection;
  }

  -- The request after it was handed to RequestPage.
  abbrev pub requested : Exchange V Q F → Exchange V Q F
  requested x = record x {
    services =
        at_client tt
          (make_local_http_request to_fcgi_data (text "/tmp/fcgi.sock") root_request 3000)
          x.services;
  }

  forward-IsCurrent :
      (e : CloseErrors) (context : ℕ) (response : Option V) (c : Connection Q (ResponseSender F))
      → IsCurrent fcgi http context false c
      → responder_is_sent fcgi http context (forward e context response c) ≡ true
  unfolding forward
  forward-IsCurrent e context none c h =
      send-finishes fcgi http e context false (page_of (text "No response")) c h
  forward-IsCurrent e context (some r) c h =
      send-finishes fcgi http e context false (page_of (body r)) c h

  page_requests :
      (x : Exchange V Q F) → x.services.context_alive ≡ true → request_page x ≡ some (requested x)
  unfolding request_page client_make_local_http_request call has_value get
  page_requests x live =
      ap
        (λ h.
          elim (client_make_local_http_request to_fcgi_data (text "/tmp/fcgi.sock") root_request
              3000 (h, x.services))
            as (λ _. Option (Exchange V Q F)) [
              | none ↦ none
              | some (c, w) ↦ some (record x { services = w })
            ])
        (live-client x.services live)

  forward-page :
      (e : CloseErrors) (context : ℕ) (response : Option ResponseData)
      (c : Connection Q (ResponseSender F))
      → forward e context (view_of response_from_string response) c
        ≡ responder_send_http fcgi http e context
            (page_of (expected_page response_from_string body response))
            c
  unfolding forward
  forward-page e context none c = refl
  forward-page e context (some r) c = refl

  -- The calls of the client, and whether the response is sent.
  abbrev pub observed : ℕ → Exchange V Q F → List (ClientCall V) × Bool
  observed context x = (x.services.client.calls, responder_is_sent fcgi http context x.connection)

  -- Where the request's context is alive, its response is not sent, and its queue `q` is the client's: the
  -- page stops the queue, starts a timer and asks the other application, and sends nothing. When that
  -- answers, a page with the body of the answer is sent, and when it does not, a page that says "No
  -- response"; the response is sent then, and the queue is launched once, after the handler was called.
  pub forwards_one_answer :
      (e : CloseErrors) (context q : ℕ) (response : Option ResponseData) (x : Exchange V Q F)
      → x.services.context_alive ≡ true
      → x.services.client.request_processor_queue ≡ some q
      → IsCurrent fcgi http context false x.connection
      → (request_page x ≡ some (requested x))
        × (observed context (requested x) ≡ (
          x.services.client.calls
              ++ stop_queue q ∷ []
              ++ start_timer x.services.client.next_request 3000 ∷ []
              ++ connect x.services.client.next_request
                  (local (text "/tmp/fcgi.sock"))
                  (to_fcgi_data root_request)
                ∷ [],
          false,
        ))
        × (observed context (
              request_page_answered e context x.services.client.next_request response (requested x))
            ≡ (
              (requested x).services.client.calls
                  ++ answer_calls response_from_string x.services.client.next_request response
                  ++ launch_queue q ∷ [],
              true,
            ))
        × ((request_page_answered e context x.services.client.next_request response
              (requested x)).connection
            ≡ responder_send_http fcgi http e context
                (page_of (expected_page response_from_string body response))
                x.connection)
  unfolding request_page_answered
  forwards_one_answer e context q response x live queue current =
      let (calls, still) = requested-calls to_fcgi_data root_request q x.services.client queue in
      (
        page_requests x live,
        both calls (ask-IsCurrent fcgi http context false x.connection current),
        both (answered-calls response_from_string x.services.client.next_request q response _ still)
            (forward-IsCurrent e context (view_of response_from_string response) x.connection
              current),
        forward-page e context response x.connection,
      )
