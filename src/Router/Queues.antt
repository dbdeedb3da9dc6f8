-- ===== src/Router/Queues.antt =====
-- Router::operator() and ResponseContext::setRequestProcessorQueue: which part of a connection
-- refers to which queue. The ResponseContext owns its queue; the dispatcher observes it through a
-- weak_ptr; the ClientService and the TimerProvider hold plain references.
use asyncgi.Common.{
  ℕ, ◌+◌, ◌<◌, ◌≡◌, refl, Bool, true, Option, none, some, List, [], ◌∷◌, ◌++◌, arith, if◌then◌else◌,
}

pub record Services : Type 0 where
  -- whether the ResponseContext that the Responder refers to is alive
  pub context_alive : Bool
  pub context_queue : Option ℕ
  pub client_queue : Option ℕ
  pub dispatcher_queue : Option ℕ
  pub timer_provider_queue : Option ℕ
  pub next_queue : ℕ
  pub launched : List ℕ

-- A queue lives as long as the context that owns it.
abbrev pub IsAlive : ℕ → Services → Type 0
IsAlive q s = s.context_queue ≡ some q

-- ResponseContext::setRequestProcessorQueue
unfoldable pub set_context_queue : ℕ → Services → Services
set_context_queue q s = record s {
  context_queue = some q;
  client_queue = some q;
  dispatcher_queue = some q;
  timer_provider_queue = some q;
}

-- RouterResponseContextAccessor::setRequestProcessorQueue
unfoldable pub accessor_set_queue : ℕ → Services → Services
unfolding set_context_queue
accessor_set_queue q s = if s.context_alive then set_context_queue q s else s

-- Router::operator(): the queue is made, handed out, filled by whaleroute and launched.
unfoldable pub route : Services → Services
unfolding accessor_set_queue
route s =
    let q = s.next_queue in
    let s' = accessor_set_queue q (record s { next_queue = q + 1 }) in
    record s' { launched = s'.launched ++ q ∷ [] }

-- The new ResponseContext of Connection::processRequest takes the place of the old one, which is
-- destroyed together with its queue.
unfoldable pub new_context : Services → Services
new_context s = record s { context_alive = true; context_queue = none }

-- After a router has got a request, whatever the connection did before, the client, the dispatcher
-- and the timers of the connection all refer to the queue of that request, which is alive, is no
-- queue made before, and is launched last.
pub route_wires :
    (s : Services)
    → IsAlive s.next_queue (route (new_context s))
      × ((route (new_context s)).client_queue ≡ some s.next_queue)
      × ((route (new_context s)).dispatcher_queue ≡ some s.next_queue)
      × ((route (new_context s)).timer_provider_queue ≡ some s.next_queue)
      × (s.next_queue < (route (new_context s)).next_queue)
      × ((route (new_context s)).launched ≡ s.launched ++ s.next_queue ∷ [])
unfolding route new_context
route_wires s = (refl, refl, refl, refl, omega arith, refl)

-- Between the arrival of the next request on the connection and its routing, and for as long as it
-- is not routed, the client and the timers still refer to the queue of the request before, which is
-- destroyed.
pub references_outlive_the_queue :
    (s : Services)
    → ((new_context (route (new_context s))).client_queue ≡ some s.next_queue)
      × ((new_context (route (new_context s))).timer_provider_queue ≡ some s.next_queue)
      × (¬ IsAlive s.next_queue (new_context (route (new_context s))))
unfolding route new_context
references_outlive_the_queue s = (refl, refl, λ e. cc)
