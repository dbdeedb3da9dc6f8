-- ===== src/IoService/Defs.antt =====
-- The pool of io_context objects and what the program calls on them. An io_context is known by the
-- number of the round of makeIoPool that made it.
use asyncgi.Common.{
  ℕ, zero, suc, ◌+◌, ◌%◌, Bool, not, Option, none, some, List, [], ◌∷◌, ◌++◌, map, if◌then◌else◌,
  length, is_empty, get_elem?, ℤ, pos, negsuc,
}
use asyncgi.Net.Outbox.{size_mod}

pub data IoCall : Type 0 where
  -- a new thread runs an io_context
  run_in_thread : ℕ → IoCall
  run_io : ℕ → IoCall
  join_thread : ℕ → IoCall
  stop_io : ℕ → IoCall
  wait_signal : IoCall

pub record IoService : Type 0 where
  pub io_pool : List ℕ
  pub io_guard_pool : List ℕ
  pub io_index : ℕ
  pub thread_pool : List ℕ
  pub calls : List IoCall

-- The rounds of the loop from `i` on, with `n` left.
unfoldable pub add_io : ℕ → ℕ → List ℕ
add_io i zero = []
add_io i (suc n) = i ∷ add_io (i + 1) n

unfoldable pub make_io_pool : ℤ → List ℕ
unfolding add_io
make_io_pool (pos n) = add_io 0 n
make_io_pool (negsuc n) = []

-- A work guard holds the executor of its io_context.
unfoldable pub make_guard_pool : List ℕ → List ℕ
make_guard_pool pool = map (λ io. io) pool

abbrev pub issue : IoCall → IoService → IoService
issue call s = record s { calls = s.calls ++ call ∷ [] }

unfoldable pub handle_stop_signals : IoService → IoService
handle_stop_signals s = issue wait_signal s

-- The constructor; `none` is the std::out_of_range that ioPool_.at(0) throws.
unfoldable pub make_io_service : ℤ → Option IoService
unfolding make_io_pool make_guard_pool handle_stop_signals
make_io_service thread_count =
    let pool = make_io_pool thread_count in
    if is_empty pool
    then none
    else some (
        handle_stop_signals (record {
          io_pool = pool;
          io_guard_pool = make_guard_pool pool;
          io_index = 0;
          thread_pool = [];
          calls = [];
        }))

-- io(); `none` is std::out_of_range.
unfoldable pub io : IoService → Option ℕ
io s = get_elem? s.io_pool 0

-- nextIO(); ioIndex_ is an atomic std::size_t, so the increment wraps and is one step.
unfoldable pub next_io : IoService → Option ℕ × IoService
next_io s = (
  get_elem? s.io_pool (s.io_index % length s.io_pool),
  record s { io_index = (s.io_index + 1) % size_mod },
)

-- The loop of run(): the threads for the io_contexts after the first.
unfoldable pub start_threads : List ℕ → IoService → IoService
start_threads [] s = s
start_threads (io ∷ rest) s =
    start_threads rest
      (issue (run_in_thread io) (record s { thread_pool = s.thread_pool ++ io ∷ [] }))

unfoldable pub join_threads : List ℕ → IoService → IoService
join_threads [] s = s
join_threads (thread ∷ rest) s = join_threads rest (issue (join_thread thread) s)

run_first : List ℕ → IoService → IoService
unfolding start_threads
run_first [] s = s
run_first (first ∷ rest) s = issue (run_io first) (start_threads rest s)

unfoldable pub run : IoService → IoService
unfolding run_first join_threads
run s = let s' = run_first s.io_pool s in join_threads s'.thread_pool s'

unfoldable pub stop_all : List ℕ → IoService → IoService
stop_all [] s = s
stop_all (io ∷ rest) s = stop_all rest (issue (stop_io io) s)

unfoldable pub stop : IoService → IoService
unfolding stop_all
stop s = stop_all s.io_pool s

-- The completion handler of the signal wait.
unfoldable pub on_signal : Bool → IoService → IoService
unfolding stop handle_stop_signals
on_signal error s = if not error then stop s else handle_stop_signals s
