-- ===== src/Timer/Provider.antt =====
-- TimerProvider (src/timerprovider.h, src/timerprovider.cpp): the timers of one connection.
use asyncgi.Common.{
  ℕ, ◌≡◌, sym, ◌∙◌, Option, none, some, List, [], ◌∷◌, ◌++◌, map, append-nil, append_assoc,
}
use asyncgi.Timer.Service.{TimerService}

pub record TimerProvider : Type 0 where
  pub timers : List TimerService
  pub request_processor_queue : Option ℕ

-- The constructor of TimerService
abbrev pub new_timer : Option ℕ → TimerService
new_timer queue = record { request_processor_queue = queue; armed = none; calls = [] }

-- The new timer is at the end of the deque, which does not move the others.
unfoldable pub emplace_timer : TimerProvider → TimerProvider
emplace_timer p = record p { timers = p.timers ++ new_timer p.request_processor_queue ∷ [] }

unfoldable pub set_request_processor_queue : ℕ → TimerProvider → TimerProvider
set_request_processor_queue q p = record p { request_processor_queue = some q }

-- A use of the provider, and several in a row.
pub data ProviderUse : Type 0 where
  makes_timer : ProviderUse
  sets_queue : ℕ → ProviderUse

unfoldable pub provider_uses : List ProviderUse → TimerProvider → TimerProvider
unfolding emplace_timer set_request_processor_queue
provider_uses [] p = p
provider_uses (makes_timer ∷ rest) p = provider_uses rest (emplace_timer p)
provider_uses (sets_queue q ∷ rest) p = provider_uses rest (set_request_processor_queue q p)

-- For each timer that is made, the queue that was set last before it.
abbrev pub queues_at : Option ℕ → List ProviderUse → List (Option ℕ)
queues_at queue [] = []
queues_at queue (makes_timer ∷ rest) = queue ∷ queues_at queue rest
queues_at queue (sets_queue q ∷ rest) = queues_at (some q) rest

-- However a provider is used, it has the timers that it had and, behind them and in the order in
-- which they were made, one new timer for each that was asked for, each with the queue that was set
-- last before it was made: no timer is changed by a queue that is set later.
pub timers_keep_their_queue :
    (uses : List ProviderUse) (p : TimerProvider)
    → (provider_uses uses p).timers
      ≡ p.timers ++ map new_timer (queues_at p.request_processor_queue uses)
unfolding provider_uses emplace_timer set_request_processor_queue
timers_keep_their_queue [] p = sym (append-nil p.timers)
timers_keep_their_queue (makes_timer ∷ rest) p =
    timers_keep_their_queue rest _ ∙ append_assoc p.timers _ _
timers_keep_their_queue (sets_queue q ∷ rest) p = timers_keep_their_queue rest _
