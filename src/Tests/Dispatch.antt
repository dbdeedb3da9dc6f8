-- ===== src/Tests/Dispatch.antt =====
-- src/asiodispatcherservice.cpp and src/taskcontext.cpp at concrete inputs.
use asyncgi.AsioDispatcher.Defs.{post_task, Dispatcher, copy_context, drop_context, on_lock}
use asyncgi.Common.{◌+◌, ◌≡◌, refl, true, some, [], arith}
use asyncgi.AsioDispatcher.Histories.{
  here, later, Reach, posts, copies_context, drops_context, IsFresh, count_stops, count_launches,
}
use asyncgi.AsioDispatcher.Balance.{stops_and_launches}

abbrev idle : Dispatcher
idle = record { request_processor_queue = some 3; alive = λ q. true; actions = []; calls = [] }

idle-IsFresh : IsFresh 3 idle
idle-IsFresh = record { queue = refl; lives = refl; no_actions = refl; no_calls = refl }

-- Two tasks are posted; the first one's context is copied, and both its copies go.
abbrev busy : Dispatcher
unfolding post_task copy_context drop_context on_lock
busy = drop_context 0 (drop_context 0 (copy_context 0 (post_task (post_task idle))))

busy-Reach : Reach idle busy
unfolding post_task copy_context drop_context on_lock
busy-Reach =
    later
      (later
        (later (later (later here posts) posts)
          (copies_context 0 (record { queue_observer = some 3; copies = 1 }) refl (omega arith)))
        (drops_context 0 (record { queue_observer = some 3; copies = 2 }) refl (omega arith)))
      (drops_context 0 (record { queue_observer = some 3; copies = 1 }) refl (omega arith))

stops_and_launches_example : (count_stops busy.calls ≡ 2) × (count_launches busy.calls + 1 ≡ 2)
unfolding post_task copy_context drop_context on_lock
stops_and_launches_example = stops_and_launches 3 idle-IsFresh busy-Reach
