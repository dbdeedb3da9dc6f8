-- ===== src/AsioDispatcher/Defs.antt =====
-- AsioDispatcherService and TaskContext. Tasks are numbered as they are posted.
-- A task's PostAction object: the queue that its action observes, and how many copies of the
-- shared_ptr to it there are. With none left it has been destroyed.
use asyncgi.Common.{
  ℕ, zero, suc, ◌+◌, ◌-◌, Bool, Option, none, some, List, [], ◌∷◌, ◌++◌, ◌==◌, if◌then◌else◌,
  length, get_elem?,
}

pub record PostAction : Type 0 where
  pub queue_observer : Option ℕ
  pub copies : ℕ

pub data DispatchCall : Type 0 where
  stop_queue : ℕ → DispatchCall
  launch_queue : ℕ → DispatchCall
  post : ℕ → DispatchCall

-- `alive` is the queue objects that are not destroyed: a weak_ptr to one of them can be locked.
pub record Dispatcher : Type 0 where
  pub request_processor_queue : Option ℕ
  pub alive : ℕ → Bool
  pub actions : List PostAction
  pub calls : List DispatchCall

-- The constructor of AsioDispatcherService
abbrev pub make_dispatcher : (ℕ → Bool) → Dispatcher
make_dispatcher alive = record {
  request_processor_queue = none;
  alive = alive;
  actions = [];
  calls = [];
}

abbrev pub issue : DispatchCall → Dispatcher → Dispatcher
issue call s = record s { calls = s.calls ++ call ∷ [] }

-- `if (auto queue = observer.lock()) ...`
unfoldable pub on_lock : Option ℕ → (ℕ → DispatchCall) → Dispatcher → Dispatcher
on_lock none call s = s
on_lock (some q) call s = if s.alive q then issue (call q) s else s

unfoldable pub set_request_processor_queue : ℕ → Dispatcher → Dispatcher
set_request_processor_queue q s = record s { request_processor_queue = some q }

-- The posted function object holds the task's first TaskContext.
unfoldable pub post_task : Dispatcher → Dispatcher
post_task s =
    let s' = on_lock s.request_processor_queue stop_queue s in
    issue (post (length s'.actions)) (record s' {
      actions =
          s'.actions ++ record { queue_observer = s'.request_processor_queue; copies = 1 } ∷ [];
    })

-- A TaskContext is copied.
unfoldable pub add_copy : ℕ → List PostAction → List PostAction
add_copy id [] = []
add_copy zero (a ∷ rest) = record a { copies = a.copies + 1 } ∷ rest
add_copy (suc id) (a ∷ rest) = a ∷ add_copy id rest

unfoldable pub copy_context : ℕ → Dispatcher → Dispatcher
unfolding add_copy
copy_context id s = record s { actions = add_copy id s.actions }

-- A TaskContext is destroyed: with the last copy ~PostAction runs the action.
unfoldable pub drop_copy : ℕ → List PostAction → List PostAction
drop_copy id [] = []
drop_copy zero (a ∷ rest) = record a { copies = a.copies - 1 } ∷ rest
drop_copy (suc id) (a ∷ rest) = a ∷ drop_copy id rest

unfoldable pub destroy : Option PostAction → Dispatcher → Dispatcher
unfolding on_lock
destroy none s = s
destroy (some a) s = if a.copies == 1 then on_lock a.queue_observer launch_queue s else s

unfoldable pub drop_context : ℕ → Dispatcher → Dispatcher
unfolding drop_copy destroy
drop_context id s = record (destroy (get_elem? s.actions id) s) { actions = drop_copy id s.actions }
