-- ===== src/Server/Affinity.antt =====
-- The threads that the connections of a listener run in (src/connectionlistener.cpp,
-- src/connectionfactory.cpp, src/ioservice.cpp).
use asyncgi.IoService.Affinity.{runs, one_thread_each}
use asyncgi.IoService.Defs.{IoService, IoCall, make_io_service, next_io, run}
use asyncgi.Server.Listener.{accept_each, make_connection_listener}
use asyncgi.Server.Accepting.{made, upcoming, successes, accepts_in_turn}
use asyncgi.Common.{ℕ, zero, suc, ◌+◌, ◌≡◌, Option, some, List, All, ℤ}

-- A connection with its io_context, which some calls run once.
abbrev pub HasOneThread : List IoCall → ℕ × Option ℕ → Type 0
HasOneThread calls (connection, io) = (i : ℕ) × (io ≡ some i) × (runs i calls ≡ 1)

upcoming-HasOneThread :
    (thread_count : ℤ) (s : IoService)
    → make_io_service thread_count ≡ some s
    → (c n index : ℕ)
    → All (HasOneThread (run s).calls) (upcoming c n (record s { io_index = index }))
unfolding next_io
upcoming-HasOneThread thread_count s h c zero index = tt
upcoming-HasOneThread thread_count s h c (suc n) index =
    (one_thread_each thread_count s h index, upcoming-HasOneThread thread_count s h (c + 1) n _)

-- For an IO of any number of threads for which one can be made: of the connections that a listener
-- makes while its first n accepts succeed, each has an io_context that run() of the IO runs once,
-- in exactly one thread.
pub connections_have_one_thread :
    (thread_count : ℤ) (n : ℕ) (s : IoService)
    → make_io_service thread_count ≡ some s
    → All
        (HasOneThread (run s).calls)
        (made (accept_each (successes n) (make_connection_listener s)).calls)
connections_have_one_thread thread_count n s h =
    rw (accepts_in_turn n s).2 (upcoming-HasOneThread thread_count s h 0 (suc n) s.io_index)
