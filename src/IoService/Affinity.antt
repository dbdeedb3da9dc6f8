-- ===== src/IoService/Affinity.antt =====
-- Which threads run an io_context (src/ioservice.cpp).
use asyncgi.IoService.Defs.{
  IoService, IoCall, run_in_thread, run_io, join_thread, stop_io, wait_signal, run, next_io,
  make_io_service, make_io_pool, add_io, handle_stop_signals,
}
use native.Mathlib.Nat.{mod-lt}
use asyncgi.IoService.Rotation.{length-add_io, get_elem?-add_io}
use asyncgi.IoService.Threads.{calls-run}
use asyncgi.Common.{
  ℕ, zero, suc, ◌+◌, ◌%◌, ◌≤◌, ◌<◌, ◌≡◌, refl, ap, true, false, some, List, [], ◌∷◌, ◌++◌, map,
  arith, ◌==◌, if◌then◌else◌, length, get_elem?, ℤ, pos, negsuc,
}

-- How many of some calls run the io_context of a number: in a thread of its own, or in the caller's.
abbrev pub runs : ℕ → List IoCall → ℕ
runs io [] = 0
runs io (run_in_thread i ∷ calls) = (if i == io then 1 else 0) + runs io calls
runs io (run_io i ∷ calls) = (if i == io then 1 else 0) + runs io calls
runs io (join_thread t ∷ calls) = runs io calls
runs io (stop_io i ∷ calls) = runs io calls
runs io (wait_signal ∷ calls) = runs io calls

abbrev occurrences : ℕ → List ℕ → ℕ
occurrences io [] = 0
occurrences io (i ∷ pool) = (if i == io then 1 else 0) + occurrences io pool

runs-append : (io : ℕ) (xs ys : List IoCall) → runs io (xs ++ ys) ≡ runs io xs + runs io ys
runs-append io [] ys = omega arith
runs-append io (run_in_thread i ∷ xs) ys = omega (arith, runs-append io xs ys)
runs-append io (run_io i ∷ xs) ys = omega (arith, runs-append io xs ys)
runs-append io (join_thread t ∷ xs) ys = runs-append io xs ys
runs-append io (stop_io i ∷ xs) ys = runs-append io xs ys
runs-append io (wait_signal ∷ xs) ys = runs-append io xs ys

runs-run_in_thread :
    (io : ℕ) (pool : List ℕ) → runs io (map run_in_thread pool) ≡ occurrences io pool
runs-run_in_thread io [] = refl
runs-run_in_thread io (i ∷ pool) = omega (arith, runs-run_in_thread io pool)

runs-join_thread : (io : ℕ) (pool : List ℕ) → runs io (map join_thread pool) ≡ 0
runs-join_thread io [] = refl
runs-join_thread io (t ∷ pool) = runs-join_thread io pool

-- The numbers of the pool from `a` on
occurrences-below : (io a n : ℕ) → io < a → occurrences io (add_io a n) ≡ 0
unfolding add_io
occurrences-below io a zero h = refl
occurrences-below io a (suc n) h =
    let other : (a == io) ≡ false = ground arith in
    rw other (omega (arith, occurrences-below io (a + 1) n (omega arith)))

occurs-once :
    (io a n i : ℕ)
    → get_elem? (add_io a n) i ≡ some io
    → (a ≤ io) × (occurrences io (add_io a n) ≡ 1)
unfolding add_io
occurs-once io a zero i h = ground arith
occurs-once io a (suc n) zero h =
    let same : a ≡ io = ground arith in
    let mine : (a == io) ≡ true = ground arith in
    (omega arith, rw mine (omega (arith, occurrences-below io (a + 1) n (omega arith))))
occurs-once io a (suc n) (suc i) h =
    let (above, once) = occurs-once io (a + 1) n i h in
    let other : (a == io) ≡ false = ground arith in (omega arith, rw other (omega (arith, once)))

made-fields :
    (thread_count : ℤ) (s : IoService)
    → make_io_service thread_count ≡ some s
    → (s.io_pool ≡ make_io_pool thread_count) × (s.thread_pool ≡ []) × (s.calls ≡ wait_signal ∷ [])
unfolding make_io_service handle_stop_signals
made-fields thread_count s h = (ground arith, ground arith, ground arith)

pool-once :
    (thread_count : ℤ) (io i : ℕ)
    → get_elem? (make_io_pool thread_count) i ≡ some io
    → occurrences io (make_io_pool thread_count) ≡ 1
unfolding make_io_pool
pool-once (pos n) io i h = (occurs-once io 0 n i h).1
pool-once (negsuc n) io i h = ground arith

runs-run :
    (s : IoService) (io : ℕ) (pool : List ℕ)
    → s.io_pool ≡ pool
    → s.thread_pool ≡ []
    → occurrences io pool ≡ 1
    → runs io (run s).calls ≡ runs io s.calls + 1
runs-run s io [] h none_yet once = ground arith
runs-run s io (first ∷ rest) h none_yet once = omega (
  arith,
  ap (runs io) (calls-run s first rest h none_yet),
  runs-append io s.calls (map run_in_thread rest ++ run_io first ∷ map join_thread rest),
  runs-append io (map run_in_thread rest) (run_io first ∷ map join_thread rest),
  runs-run_in_thread io rest,
  runs-join_thread io rest,
)

pool-nonempty :
    (thread_count : ℤ) (s : IoService)
    → make_io_service thread_count ≡ some s
    → (index : ℕ) → (io : ℕ) × (get_elem? s.io_pool (index % length s.io_pool) ≡ some io)
unfolding make_io_service make_io_pool add_io
pool-nonempty (pos zero) s h index = ground arith
pool-nonempty (pos (suc n)) s h index =
    let (pool, _, _) = made-fields (pos (suc n)) s h in
    let below : index % suc n < suc n = mod-lt index (omega arith) in
    (
      0 + index % suc n,
      rw (pool, length-add_io 0 (suc n)) (get_elem?-add_io 0 (suc n) (index % suc n) below),
    )
pool-nonempty (negsuc n) s h index = ground arith

-- However often nextIO() of a new service was called, it returns an io_context that run() runs once, in a
-- thread of its own or in the caller's.
pub one_thread_each :
    (thread_count : ℤ) (s : IoService)
    → make_io_service thread_count ≡ some s
    → (index : ℕ)
    → (io : ℕ) × ((next_io (record s { io_index = index })).0 ≡ some io)
      × (runs io (run s).calls ≡ 1)
unfolding next_io
one_thread_each thread_count s made index =
    let (pool, none_yet, calls) = made-fields thread_count s made in
    let (io, returned) = pool-nonempty thread_count s made index in
    let once = pool-once thread_count io _ (rw pool at returned) in
    (
      io,
      returned,
      omega
          (arith, runs-run s io (make_io_pool thread_count) pool none_yet once, ap (runs io) calls),
    )
