-- ===== src/AsioDispatcher/Histories.antt =====
-- Every sequence of posted tasks and of copied and destroyed contexts (src/asiodispatcherservice.cpp,
-- src/taskcontext.cpp), and counts of its calls.
use asyncgi.Common.{
  ℕ, suc, ◌+◌, ◌≡◌, ◌≢◌, true, some, List, [], ◌∷◌, ◌++◌, arith, ◌==◌, if◌then◌else◌, get_elem?,
}
use asyncgi.AsioDispatcher.Defs.{
  Dispatcher, PostAction, DispatchCall, stop_queue, launch_queue, post, post_task, copy_context,
  drop_context,
}

abbrev pub count_stops : List DispatchCall → ℕ
count_stops [] = 0
count_stops (stop_queue q ∷ rest) = suc (count_stops rest)
count_stops (launch_queue q ∷ rest) = count_stops rest
count_stops (post id ∷ rest) = count_stops rest

abbrev pub count_launches : List DispatchCall → ℕ
count_launches [] = 0
count_launches (stop_queue q ∷ rest) = count_launches rest
count_launches (launch_queue q ∷ rest) = suc (count_launches rest)
count_launches (post id ∷ rest) = count_launches rest

-- The tasks that still have a TaskContext.
abbrev pub count_held : List PostAction → ℕ
count_held [] = 0
count_held (a ∷ rest) = (if a.copies == 0 then 0 else 1) + count_held rest

pub count_stops-append :
    (xs ys : List DispatchCall) → count_stops (xs ++ ys) ≡ count_stops xs + count_stops ys
count_stops-append [] ys = omega arith
count_stops-append (stop_queue q ∷ xs) ys = omega (arith, count_stops-append xs ys)
count_stops-append (launch_queue q ∷ xs) ys = count_stops-append xs ys
count_stops-append (post id ∷ xs) ys = count_stops-append xs ys

pub count_launches-append :
    (xs ys : List DispatchCall) → count_launches (xs ++ ys) ≡ count_launches xs + count_launches ys
count_launches-append [] ys = omega arith
count_launches-append (stop_queue q ∷ xs) ys = count_launches-append xs ys
count_launches-append (launch_queue q ∷ xs) ys = omega (arith, count_launches-append xs ys)
count_launches-append (post id ∷ xs) ys = count_launches-append xs ys

pub count_held-append :
    (xs ys : List PostAction) → count_held (xs ++ ys) ≡ count_held xs + count_held ys
count_held-append [] ys = omega arith
count_held-append (a ∷ xs) ys = omega (arith, count_held-append xs ys)

-- What the program and user code may do with contexts that exist.
pub data Step (s : Dispatcher) : Dispatcher → Type 0 where
  posts : Step s (post_task s)
  copies_context :
      (id : ℕ) (a : PostAction)
      → get_elem? s.actions id ≡ some a
      → a.copies ≢ 0
      → Step s (copy_context id s)
  drops_context :
      (id : ℕ) (a : PostAction)
      → get_elem? s.actions id ≡ some a
      → a.copies ≢ 0
      → Step s (drop_context id s)

pub data Reach (s : Dispatcher) : Dispatcher → Type 0 where
  here : Reach s s
  later : {t u : Dispatcher} → Reach s t → Step t u → Reach s u

-- The queue `q` is the service's and is not destroyed, and nothing was posted yet.
pub record IsFresh (q : ℕ) (s : Dispatcher) : Type 0 where
  pub queue : s.request_processor_queue ≡ some q
  pub lives : s.alive q ≡ true
  pub no_actions : s.actions ≡ []
  pub no_calls : s.calls ≡ []
