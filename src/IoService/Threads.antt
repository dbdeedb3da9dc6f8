-- ===== src/IoService/Threads.antt =====
-- The io_contexts that IOService::run and IOService::stop call (src/ioservice.cpp).
use asyncgi.Common.{
  ℕ, ◌≡◌, refl, ap, ◌∙◌, true, false, List, [], ◌∷◌, ◌++◌, map, append-nil, append_assoc,
}
use asyncgi.IoService.Defs.{
  IoService, run, start_threads, join_threads, stop_all, run_in_thread, run_io, join_thread,
  stop_io, wait_signal, on_signal,
}

start_threads_lem :
    (pool : List ℕ) (s : IoService)
    → start_threads pool s
      ≡ record s { calls = s.calls ++ map run_in_thread pool; thread_pool = s.thread_pool ++ pool }
unfolding start_threads
start_threads_lem [] s = rw (append-nil, append-nil) refl
start_threads_lem (io ∷ rest) s = start_threads_lem rest _ ∙ simp append_assoc

join_threads_lem :
    (threads : List ℕ) (s : IoService)
    → join_threads threads s ≡ record s { calls = s.calls ++ map join_thread threads }
unfolding join_threads
join_threads_lem [] s = rw append-nil refl
join_threads_lem (t ∷ rest) s = join_threads_lem rest _ ∙ simp append_assoc

stop_all_lem :
    (pool : List ℕ) (s : IoService)
    → stop_all pool s ≡ record s { calls = s.calls ++ map stop_io pool }
unfolding stop_all
stop_all_lem [] s = rw append-nil refl
stop_all_lem (io ∷ rest) s = stop_all_lem rest _ ∙ simp append_assoc

-- run(), on a service with no threads yet, starts a thread for each io_context after the first, in
-- the order of the pool, then runs the first one itself, and then joins each of those threads.
pub calls-run :
    (s : IoService) (first : ℕ) (rest : List ℕ)
    → s.io_pool ≡ first ∷ rest
    → s.thread_pool ≡ []
    → (run s).calls ≡ s.calls ++ (map run_in_thread rest ++ run_io first ∷ map join_thread rest)
unfolding run
calls-run s first rest pool none_yet =
    rw
      (
        pool,
        start_threads_lem rest (record s { io_pool = first ∷ rest }),
        join_threads_lem,
        none_yet,
      )
      (simp append_assoc)

-- Where the wait for a stop signal ends without an error, every io_context of the pool is stopped,
-- each once and in the order of the pool; where it ends with one, the service waits again and stops
-- none.
pub on_signal_stops :
    (s : IoService)
    → ((on_signal false s).calls ≡ s.calls ++ map stop_io s.io_pool)
      × ((on_signal true s).calls ≡ s.calls ++ wait_signal ∷ [])
unfolding on_signal
on_signal_stops s = (ap (λ (x : IoService). x.calls) (stop_all_lem s.io_pool s), refl)
