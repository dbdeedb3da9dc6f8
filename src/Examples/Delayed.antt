-- ===== src/Examples/Delayed.antt =====
-- examples/example_response_dispatching_asio_task.cpp: a page that is sent by a task of the dispatcher
-- three seconds later.
use asyncgi.Router.Fallbacks.{send-finishes}
use asyncgi.Connection.Answers.{IsCurrent, ask-IsCurrent}
use asyncgi.Facade.Holder.{call, has_value, get, referring}
use asyncgi.Connection.Defs.{Connection}
use asyncgi.Net.Outbox.{CloseErrors}
use asyncgi.Facade.Defs.{at_dispatcher, dispatcher_of_responder, Services, dispatcher_post_task}
use asyncgi.Connection.Requests.{HttpResponse, responder_send_http, responder_is_sent}
use asyncgi.Response.Sender.{FcgiResponse, ResponseSender}
use asyncgi.AsioDispatcher.Defs.{
  PostAction, copy_context, add_copy, DispatchCall, drop_context, drop_copy, post_task, destroy,
  Dispatcher, on_lock, stop_queue, launch_queue, post,
}
use asyncgi.Common.{
  ℕ, ◌+◌, ◌-◌, ◌≡◌, refl, ap, ◌∙◌, Bool, true, false, Option, none, some, List, [], ◌∷◌, ◌++◌,
  arith, Bytes, text, length, get_elem?,
}

-- What a request of the page changes: the services of its connection, and the connection.
pub record Exchange {ℓ} (V Q F : Type ℓ) : Type ℓ where
  pub services : Services V
  pub connection : Connection Q (ResponseSender F)

module _ {ℓ} {V Q F H : Type ℓ} (fcgi : FcgiResponse F) (http : HttpResponse H)
    (page_of : Bytes → H) where
  -- DelayedPage::operator(); `none` where it would be undefined.
  unfoldable pub delayed_page : Exchange V Q F → Option (Exchange V Q F)
  unfolding dispatcher_of_responder dispatcher_post_task
  delayed_page x = elim (dispatcher_post_task (dispatcher_of_responder x.services, x.services)) [
    | none ↦ none
    | some (d, w) ↦ some (record x { services = w })
  ]

  -- The task runs: the handler of its timer captures a copy of the task's context, which is destroyed
  -- with the task.
  unfoldable pub delayed_task : ℕ → Exchange V Q F → Exchange V Q F
  unfolding copy_context drop_context
  delayed_task task x = record x {
    services = at_dispatcher tt (λ d. drop_context task (copy_context task d)) x.services;
  }

  -- The handler of the timer runs, and is destroyed with the copy.
  unfoldable pub delayed_send : CloseErrors → ℕ → Exchange V Q F → Exchange V Q F
  unfolding responder_send_http
  delayed_send e context x = record x {
    connection =
        responder_send_http fcgi http e context (page_of (text "Hello world")) x.connection;
  }

  unfoldable pub delayed_timer : CloseErrors → ℕ → ℕ → Exchange V Q F → Exchange V Q F
  unfolding delayed_send drop_context
  delayed_timer e context task x =
      let x' = delayed_send e context x in
      record x' { services = at_dispatcher tt (drop_context task) x'.services }

-- Two observations at once
pub both {ℓ} :
    {A : Type ℓ} {calls calls' : A} {sent sent' : Bool}
    → calls ≡ calls'
    → sent ≡ sent'
    → ◌≡◌ {A = A × Bool} (calls, sent) (calls', sent')
both e f = cc

-- A dispatcher with one task more, of `copies` contexts.
abbrev with_task : ℕ → ℕ → List DispatchCall → Dispatcher → Dispatcher
with_task q copies calls d = record d {
  actions = d.actions ++ record { queue_observer = some q; copies = copies } ∷ [];
  calls = calls;
}

post_task-with :
    (q : ℕ) (d : Dispatcher)
    → d.request_processor_queue ≡ some q
    → d.alive q ≡ true
    → post_task d ≡ with_task q 1 (d.calls ++ stop_queue q ∷ [] ++ post (length d.actions) ∷ []) d
unfolding post_task on_lock
post_task-with q d queue alive = rw (queue, on_lock, alive) refl

add_copy-last :
    (acts : List PostAction) (a : PostAction)
    → add_copy (length acts) (acts ++ a ∷ []) ≡ acts ++ record a { copies = a.copies + 1 } ∷ []
unfolding add_copy
add_copy-last [] a = refl
add_copy-last (x ∷ acts) a = ap (λ xs. x ∷ xs) (add_copy-last acts a)

drop_copy-last :
    (acts : List PostAction) (a : PostAction)
    → drop_copy (length acts) (acts ++ a ∷ []) ≡ acts ++ record a { copies = a.copies - 1 } ∷ []
unfolding drop_copy
drop_copy-last [] a = refl
drop_copy-last (x ∷ acts) a = ap (λ xs. x ∷ xs) (drop_copy-last acts a)

get_elem?-last :
    (acts : List PostAction) (a : PostAction) → get_elem? (acts ++ a ∷ []) (length acts) ≡ some a
get_elem?-last [] a = refl
get_elem?-last (x ∷ acts) a = get_elem?-last acts a

-- A captured context outlives the task.
captured :
    (q : ℕ) (calls : List DispatchCall) (d : Dispatcher)
    → drop_context (length d.actions) (copy_context (length d.actions) (with_task q 1 calls d))
      ≡ with_task q 1 calls d
unfolding copy_context drop_context destroy
captured q calls d = rw (add_copy-last, get_elem?-last, drop_copy-last) refl

released :
    (q : ℕ) (calls : List DispatchCall) (d : Dispatcher)
    → d.alive q ≡ true
    → drop_context (length d.actions) (with_task q 1 calls d)
      ≡ with_task q 0 (calls ++ launch_queue q ∷ []) d
unfolding drop_context destroy on_lock
released q calls d alive = rw (get_elem?-last, drop_copy-last, alive) refl

live-dispatcher {ℓ} :
    {V : Type ℓ} (w : Services V)
    → w.context_alive ≡ true
    → dispatcher_of_responder w ≡ referring (some tt)
unfolding dispatcher_of_responder
live-dispatcher w live = ground arith

module _ {ℓ} {V Q F H : Type ℓ} (fcgi : FcgiResponse F) (http : HttpResponse H)
    (page_of : Bytes → H) where
  abbrev pub task_of : Exchange V Q F → ℕ
  task_of x = length x.services.asio_dispatcher.actions

  -- The request after it was handed to DelayedPage, and after its task.
  abbrev pub posted : Exchange V Q F → Exchange V Q F
  posted x = record x { services = at_dispatcher tt post_task x.services }

  abbrev pub after_task : Exchange V Q F → Exchange V Q F
  after_task x = delayed_task fcgi http page_of (task_of x) (posted x)

  -- The dispatcher's calls, and whether the response is sent.
  abbrev pub observed : ℕ → Exchange V Q F → List DispatchCall × Bool
  observed context x =
      (x.services.asio_dispatcher.calls, responder_is_sent fcgi http context x.connection)

  page_posts :
      (x : Exchange V Q F)
      → x.services.context_alive ≡ true
      → delayed_page fcgi http page_of x ≡ some (posted x)
  unfolding delayed_page dispatcher_post_task call has_value get
  page_posts x live =
      ap
        (λ h. elim (dispatcher_post_task (h, x.services)) as (λ _. Option (Exchange V Q F)) [
          | none ↦ none
          | some (d, w) ↦ some (record x { services = w })
        ])
        (live-dispatcher x.services live)

  -- Where the request's context is alive, its response is not sent, and its queue `q` is the dispatcher's
  -- and not destroyed: the page stops the queue and posts a task. When the task is done, the response is
  -- not sent and the queue is not launched. The handler of the timer sends the response, with the queue
  -- still stopped, and then the queue is launched once.
  pub queue_waits_for_the_response :
      (e : CloseErrors) (context q : ℕ) (x : Exchange V Q F)
      → x.services.context_alive ≡ true
      → x.services.asio_dispatcher.request_processor_queue ≡ some q
      → x.services.asio_dispatcher.alive q ≡ true
      → IsCurrent fcgi http context false x.connection
      → (delayed_page fcgi http page_of x ≡ some (posted x))
        × (observed context (after_task x) ≡ (
          x.services.asio_dispatcher.calls ++ stop_queue q ∷ [] ++ post (task_of x) ∷ [],
          false,
        ))
        × (observed context (delayed_send fcgi http page_of e context (after_task x)) ≡ (
          x.services.asio_dispatcher.calls ++ stop_queue q ∷ [] ++ post (task_of x) ∷ [],
          true,
        ))
        × (observed context (delayed_timer fcgi http page_of e context (task_of x) (after_task x))
            ≡ (
              x.services.asio_dispatcher.calls
                  ++ stop_queue q ∷ []
                  ++ post (task_of x) ∷ []
                  ++ launch_queue q ∷ [],
              true,
            ))
  unfolding delayed_task delayed_send delayed_timer
  queue_waits_for_the_response e context q x live queue alive current =
      let d = x.services.asio_dispatcher in
      let task = task_of x in
      let done =
        ap (λ t. drop_context task (copy_context task t)) (post_task-with q d queue alive)
        ∙ captured q _ d in
      let launched = ap (drop_context task) done ∙ released q _ d alive in
      let sent =
        send-finishes fcgi http e context false (page_of (text "Hello world")) x.connection
          current in
      (
        page_posts x live,
        both (ap (λ t. t.calls) done) (ask-IsCurrent fcgi http context false x.connection current),
        both (ap (λ t. t.calls) done) sent,
        both (ap (λ t. t.calls) launched) sent,
      )
