-- ===== src/AsioDispatcher/Balance.antt =====
-- How often AsioDispatcherService and TaskContext stop and launch the request queue.
use asyncgi.Common.{
  ℕ, zero, suc, ◌+◌, ◌≡◌, refl, sym, ap, subst, ◌∙◌, ◌≢◌, Bool, true, false, Option, some, List, [],
  ◌∷◌, ◌++◌, arith, ◌==◌, if◌then◌else◌, length, get_elem?, length-append, All, All-append,
}
use asyncgi.AsioDispatcher.Defs.{
  Dispatcher, PostAction, DispatchCall, stop_queue, launch_queue, post, post_task, copy_context,
  drop_context, add_copy, drop_copy, issue, destroy, on_lock,
}
use asyncgi.AsioDispatcher.Histories.{
  count_stops, count_launches, count_held, count_stops-append, count_launches-append,
  count_held-append, Step, Reach, IsFresh, posts, copies_context, drops_context, here, later,
}

abbrev Observes : ℕ → PostAction → Type 0
Observes q a = a.queue_observer ≡ some q

record Balanced (q : ℕ) (s : Dispatcher) : Type 0 where
  queue : s.request_processor_queue ≡ some q
  lives : s.alive q ≡ true
  observed : All (Observes q) s.actions
  stops : count_stops s.calls ≡ length s.actions
  launches : count_launches s.calls + count_held s.actions ≡ length s.actions

observed_at :
    (q : ℕ) (acts : List PostAction) (id : ℕ) {a : PostAction}
    → All (Observes q) acts
    → get_elem? acts id ≡ some a
    → Observes q a
observed_at q [] id all e = cc
observed_at q (x ∷ acts) zero all e = ground (arith, all.0)
observed_at q (x ∷ acts) (suc id) all e = observed_at q acts id all.1 e

add_copy_lem :
    (q : ℕ) (acts : List PostAction) (id : ℕ) {a : PostAction}
    → get_elem? acts id ≡ some a
    → a.copies ≢ 0
    → All (Observes q) acts
    → All (Observes q) (add_copy id acts)
      × (count_held (add_copy id acts) ≡ count_held acts)
      × (length (add_copy id acts) ≡ length acts)
unfolding add_copy
add_copy_lem q [] id e h all = cc
add_copy_lem q (x ∷ acts) zero e h all = (all, ground arith, refl)
add_copy_lem q (x ∷ acts) (suc id) e h all =
    let (a, b, c) = add_copy_lem q acts id e h all.1 in
    ((all.0, a), omega (arith, b), omega (arith, c))

drop_copy_lem :
    (q : ℕ) (acts : List PostAction) (id : ℕ) {a : PostAction}
    → get_elem? acts id ≡ some a
    → a.copies ≢ 0
    → All (Observes q) acts
    → All (Observes q) (drop_copy id acts)
      × (count_held (drop_copy id acts) + (if a.copies == 1 then 1 else 0) ≡ count_held acts)
      × (length (drop_copy id acts) ≡ length acts)
unfolding drop_copy
drop_copy_lem q [] id e h all = cc
drop_copy_lem q (x ∷ acts) zero {a} e h all = (all, ground arith, refl)
drop_copy_lem q (x ∷ acts) (suc id) e h all =
    let (a, b, c) = drop_copy_lem q acts id e h all.1 in
    ((all.0, a), omega (arith, b), omega (arith, c))

on_lock-alive :
    (q : ℕ) (call : ℕ → DispatchCall) (s : Dispatcher)
    → s.alive q ≡ true
    → on_lock (some q) call s ≡ issue (call q) s
unfolding on_lock
on_lock-alive q call s lives = rw lives refl

post_task_lem :
    (q : ℕ) (s : Dispatcher)
    → Balanced q s
    → post_task s ≡ record s {
      calls = (s.calls ++ stop_queue q ∷ []) ++ post (length s.actions) ∷ [];
      actions = s.actions ++ record { queue_observer = s.request_processor_queue; copies = 1 } ∷ [];
    }
unfolding post_task
post_task_lem q s h =
    let e : on_lock s.request_processor_queue stop_queue s ≡ issue (stop_queue q) s =
      ap (λ (o : Option ℕ). on_lock o stop_queue s) h.queue
      ∙ on_lock-alive q stop_queue s h.lives in
    ap
      (λ (t : Dispatcher). issue (post (length t.actions)) (record t {
        actions =
            t.actions ++ record { queue_observer = t.request_processor_queue; copies = 1 } ∷ [];
      }))
      e

post-Balanced : (q : ℕ) (s : Dispatcher) → Balanced q s → Balanced q (post_task s)
post-Balanced q s h =
    let new : PostAction = record { queue_observer = s.request_processor_queue; copies = 1 } in
    let call : DispatchCall = post (length s.actions) in
    subst (Balanced q) (sym (post_task_lem q s h)) (record {
      queue = h.queue;
      lives = h.lives;
      observed = All-append (Observes q) s.actions (new ∷ []) h.observed (h.queue, tt);
      stops = omega (
        arith,
        h.stops,
        count_stops-append (s.calls ++ stop_queue q ∷ []) (call ∷ []),
        count_stops-append s.calls (stop_queue q ∷ []),
        length-append s.actions (new ∷ []),
      );
      launches = omega (
        arith,
        h.launches,
        count_launches-append (s.calls ++ stop_queue q ∷ []) (call ∷ []),
        count_launches-append s.calls (stop_queue q ∷ []),
        count_held-append s.actions (new ∷ []),
        length-append s.actions (new ∷ []),
      );
    })

copy-Balanced :
    (q id : ℕ) (s : Dispatcher) {a : PostAction}
    → get_elem? s.actions id ≡ some a
    → a.copies ≢ 0
    → Balanced q s
    → Balanced q (copy_context id s)
unfolding copy_context
copy-Balanced q id s e held h =
    let (observed, same, size) = add_copy_lem q s.actions id e held h.observed in
    record {
      queue = h.queue;
      lives = h.lives;
      observed = observed;
      stops = h.stops ∙ sym size;
      launches = omega (arith, h.launches, same, size);
    }

destroy-alive :
    (q : ℕ) (s : Dispatcher) (a : PostAction)
    → a.queue_observer ≡ some q
    → s.alive q ≡ true
    → destroy (some a) s ≡ (if a.copies == 1 then issue (launch_queue q) s else s)
unfolding destroy
destroy-alive q s a e lives =
    ap (λ (t : Dispatcher). if a.copies == 1 then t else s)
      (ap (λ (o : Option ℕ). on_lock o launch_queue s) e ∙ on_lock-alive q launch_queue s lives)

-- What is counted of the calls, in both cases.
launched :
    (q : ℕ) (s : Dispatcher) (last : Bool)
    → (count_stops (if last then issue (launch_queue q) s else s).calls ≡ count_stops s.calls)
      × (count_launches (if last then issue (launch_queue q) s else s).calls
          ≡ count_launches s.calls + (if last then 1 else 0))
      × ((if last then issue (launch_queue q) s else s).request_processor_queue
          ≡ s.request_processor_queue)
      × ((if last then issue (launch_queue q) s else s).alive q ≡ s.alive q)
launched q s true = (
  omega (arith, count_stops-append s.calls (launch_queue q ∷ [])),
  omega (arith, count_launches-append s.calls (launch_queue q ∷ [])),
  refl,
  refl,
)
launched q s false = (refl, omega arith, refl, refl)

drop-Balanced :
    (q id : ℕ) (s : Dispatcher) {a : PostAction}
    → get_elem? s.actions id ≡ some a
    → a.copies ≢ 0
    → Balanced q s
    → Balanced q (drop_context id s)
unfolding drop_context
drop-Balanced q id s {a} e held h =
    let (observed, held_now, size) = drop_copy_lem q s.actions id e held h.observed in
    let (stops, launches, queue, lives) = launched q s (a.copies == 1) in
    let gone : destroy (get_elem? s.actions id) s
        ≡ (if a.copies == 1 then issue (launch_queue q) s else s) =
      ap (λ (o : Option PostAction). destroy o s) e
      ∙ destroy-alive q s a (observed_at q s.actions id h.observed e) h.lives in
    subst (λ (t : Dispatcher). Balanced q (record t { actions = drop_copy id s.actions }))
      (sym gone)
      (record {
        queue = queue ∙ h.queue;
        lives = lives ∙ h.lives;
        observed = observed;
        stops = stops ∙ h.stops ∙ sym size;
        launches = omega (arith, h.launches, launches, held_now, size);
      })

Step-Balanced : (q : ℕ) {s t : Dispatcher} → Step s t → Balanced q s → Balanced q t
Step-Balanced q {s} posts h = post-Balanced q s h
Step-Balanced q {s} (copies_context id a e held) h = copy-Balanced q id s e held h
Step-Balanced q {s} (drops_context id a e held) h = drop-Balanced q id s e held h

Reach-Balanced : (q : ℕ) {s t : Dispatcher} → IsFresh q s → Reach s t → Balanced q t
Reach-Balanced q f here = record {
  queue = f.queue;
  lives = f.lives;
  observed = rw f.no_actions tt;
  stops = rw (f.no_calls, f.no_actions) refl;
  launches = rw (f.no_calls, f.no_actions) (omega arith);
}
Reach-Balanced q f (later r st) = Step-Balanced q st (Reach-Balanced q f r)

-- As long as the service has one queue, which is not destroyed: after any posting of tasks and any
-- copying and destroying of their contexts, the queue was stopped once for each task, and it was
-- launched once for each task that has no context left, and for no other.
pub stops_and_launches :
    (q : ℕ) {s t : Dispatcher}
    → IsFresh q s
    → Reach s t
    → (count_stops t.calls ≡ length t.actions)
      × (count_launches t.calls + count_held t.actions ≡ length t.actions)
stops_and_launches q f r = let h = Reach-Balanced q f r in (h.stops, h.launches)
