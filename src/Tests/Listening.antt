-- ===== src/Tests/Listening.antt =====
-- src/server.cpp and src/connectionlistener.cpp at concrete inputs.
use asyncgi.Server.Accepting.{successes, failed_accept_is_last, processed, made, accepts_in_turn}
use asyncgi.Server.Listener.{accept_each, Listener, accept, report, make_connection_listener}
use asyncgi.Events.{AsioError, connection_error}
use asyncgi.Server.Affinity.{HasOneThread, connections_have_one_thread}
use asyncgi.IoService.Defs.{make_io_service, run, next_io, add_io}
use asyncgi.Common.{◌≡◌, refl, false, none, some, [], ◌∷◌, text, All, pos}
use asyncgi.Tests.Samples.{three_threads}

accepts_in_turn_example :
    ((accept_each (successes 2) (make_connection_listener three_threads)).accepting ≡ some 2)
    × (processed (accept_each (successes 2) (make_connection_listener three_threads)).calls
        ≡ 0 ∷ 1 ∷ [])
    × (made (accept_each (successes 2) (make_connection_listener three_threads)).calls
        ≡ (0, some 0) ∷ (1, some 1) ∷ (2, some 2) ∷ [])
unfolding next_io add_io
accepts_in_turn_example = accepts_in_turn 2 three_threads

abbrev full : AsioError
full = record { is_operation_aborted = false; message = text "too many open files" }

abbrev listening : Listener
listening = record {
  io_service = three_threads;
  next_connection = 5;
  accepting = some 4;
  calls = [];
}

failed_accept_is_last_example :
    accept_each (none ∷ none ∷ []) (accept (some full) listening) ≡ record listening {
      accepting = none;
      calls = report connection_error (text "too many open files") ∷ [];
    }
failed_accept_is_last_example = failed_accept_is_last full (none ∷ none ∷ []) listening 4 refl

three_made : make_io_service (pos 3) ≡ some three_threads
unfolding make_io_service
three_made = refl

connections_have_one_thread_example :
    All
      (HasOneThread (run three_threads).calls)
      (made (accept_each (successes 2) (make_connection_listener three_threads)).calls)
connections_have_one_thread_example = connections_have_one_thread (pos 3) 2 three_threads three_made
