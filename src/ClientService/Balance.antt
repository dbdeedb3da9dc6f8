-- ===== src/ClientService/Balance.antt =====
-- The calls of one makeRequest and of one onResponseReceived (src/clientservice.cpp), and an
-- invariant on how often each is made.
use asyncgi.Common.{
  ℕ, ◌+◌, ◌≡◌, refl, subst, ◌∙◌, Bool, false, Option, some, List, [], ◌∷◌, ◌++◌, arith, length,
  length-append,
}
use asyncgi.ClientService.Defs.{
  ClientService, ClientCall, stop_queue, launch_queue, start_timer, stop_timer, connect, report,
  handle, Pending, Endpoint, Form, FastcgiRequest, Reply,
}
use asyncgi.ClientService.Counts.{
  is_stop, is_launch, is_start_of, is_end_of, is_handler_of, count, count-append, made_one,
  is_pending,
}

module _ {ℓ} {V : Type ℓ} where
  -- What one call of makeRequest, and one of onResponseReceived, adds to a log.
  abbrev pub request_calls : ℕ → ℕ → ℕ → Endpoint → FastcgiRequest → List (ClientCall V)
  request_calls q id timeout endpoint request =
      stop_queue q ∷ start_timer id timeout ∷ connect id endpoint request ∷ []

  pub record Balanced (q : ℕ) (s : ClientService V) : Type ℓ where
    pub queue : s.request_processor_queue ≡ some q
    pub stops : count is_stop s.calls ≡ s.next_request
    pub launches : count is_launch s.calls + length s.pending ≡ s.next_request
    pub starts : (i : ℕ) → count (is_start_of i) s.calls ≡ made_one i s.next_request
    pub ends :
        (i : ℕ)
        → count (is_end_of i) s.calls + count (is_pending i) s.pending ≡ made_one i s.next_request
    pub handlers :
        (i : ℕ)
        → count (is_handler_of i) s.calls + count (is_pending i) s.pending
          ≡ made_one i s.next_request

  abbrev pub answer_calls : ℕ → ℕ → List (ClientCall V) → Option (Reply V) → List (ClientCall V)
  answer_calls q id reports r = stop_timer id ∷ reports ++ handle id r ∷ launch_queue q ∷ []

  pub request-Balanced :
      (q timeout : ℕ) (form : Form) (endpoint : Endpoint) (request : FastcgiRequest)
      (s t : ClientService V)
      → Balanced q s
      → t.request_processor_queue ≡ s.request_processor_queue
      → t.next_request ≡ s.next_request + 1
      → t.pending ≡ s.pending ++ record { id = s.next_request; form = form } ∷ []
      → t.calls ≡ s.calls ++ request_calls q s.next_request timeout endpoint request
      → Balanced q t
  request-Balanced q timeout form endpoint request s t h queue next pending calls =
      let new : List (ClientCall V) = request_calls q s.next_request timeout endpoint request in
      let one : List Pending = record { id = s.next_request; form = form } ∷ [] in
      record {
        queue = queue ∙ h.queue;
        stops = rw (calls, next) (omega (arith, h.stops, count-append is_stop s.calls new));
        launches =
            rw (calls, next, pending)
              (omega (
                arith,
                h.launches,
                count-append is_launch s.calls new,
                length-append s.pending one,
              ));
        starts = λ i.
            rw (calls, next) (ground (arith, h.starts i, count-append (is_start_of i) s.calls new));
        ends = λ i.
            rw (calls, next, pending)
              (ground (
                arith,
                h.ends i,
                count-append (is_end_of i) s.calls new,
                count-append (is_pending i) s.pending one,
              ));
        handlers = λ i.
            rw (calls, next, pending)
              (ground (
                arith,
                h.handlers i,
                count-append (is_handler_of i) s.calls new,
                count-append (is_pending i) s.pending one,
              ));
      }

  -- An answer of the request that stands at `x`; the reports count for nothing.
  pub answer-Balanced :
      (q : ℕ) (reports : List (ClientCall V)) (r : Option (Reply V)) (xs ys : List Pending)
      (x : Pending) (s t : ClientService V)
      → ((p : ClientCall V → Bool)
          → ((e : _) (m : _) → p (report e m) ≡ false)
          → count p reports ≡ 0)
      → Balanced q s
      → s.pending ≡ xs ++ x ∷ ys
      → t.request_processor_queue ≡ s.request_processor_queue
      → t.next_request ≡ s.next_request
      → t.pending ≡ xs ++ ys
      → t.calls ≡ s.calls ++ answer_calls q x.id reports r
      → Balanced q t
  answer-Balanced q reports r xs ys x s t none_of h was queue next pending calls =
      let new : List (ClientCall V) = answer_calls q x.id reports r in
      let tail : List (ClientCall V) = handle x.id r ∷ launch_queue q ∷ [] in
      record {
        queue = queue ∙ h.queue;
        stops =
            rw (calls, next)
              (omega (
                arith,
                h.stops,
                count-append is_stop s.calls new,
                count-append is_stop reports tail,
                none_of is_stop (λ e m. refl),
              ));
        launches =
            rw (calls, next, pending)
              (omega (
                arith,
                subst (λ z. count is_launch s.calls + length z ≡ s.next_request) was h.launches,
                count-append is_launch s.calls new,
                count-append is_launch reports tail,
                none_of is_launch (λ e m. refl),
                length-append xs ys,
                length-append xs (x ∷ ys),
              ));
        starts = λ i.
            rw (calls, next)
              (omega (
                arith,
                h.starts i,
                count-append (is_start_of i) s.calls new,
                count-append (is_start_of i) reports tail,
                none_of (is_start_of i) (λ e m. refl),
              ));
        ends = λ i.
            rw (calls, next, pending)
              (omega (
                arith,
                subst
                    (λ z.
                      count (is_end_of i) s.calls + count (is_pending i) z
                      ≡ made_one i s.next_request)
                    was (h.ends i),
                count-append (is_end_of i) s.calls new,
                count-append (is_end_of i) reports tail,
                none_of (is_end_of i) (λ e m. refl),
                count-append (is_pending i) xs ys,
                count-append (is_pending i) xs (x ∷ ys),
              ));
        handlers = λ i.
            rw (calls, next, pending)
              (omega (
                arith,
                subst
                    (λ z.
                      count (is_handler_of i) s.calls + count (is_pending i) z
                      ≡ made_one i s.next_request)
                    was (h.handlers i),
                count-append (is_handler_of i) s.calls new,
                count-append (is_handler_of i) reports tail,
                none_of (is_handler_of i) (λ e m. refl),
                count-append (is_pending i) xs ys,
                count-append (is_pending i) xs (x ∷ ys),
              ));
      }
