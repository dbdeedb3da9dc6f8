-- ===== src/Server/Listener.antt =====
-- ConnectionListener and ConnectionFactory. Connections are numbered as they are made.
use asyncgi.Common.{ℕ, ◌+◌, Option, none, some, List, [], ◌∷◌, ◌++◌, Bytes}
use asyncgi.IoService.Defs.{IoService, next_io}
use asyncgi.Events.{connection_error, AsioError, ErrorEvent}

pub data ListenCall : Type 0 where
  -- makeConnection: the connection, and the io_context that it runs on
  make_connection : ℕ → Option ℕ → ListenCall
  async_accept : ℕ → ListenCall
  process_connection : ℕ → ListenCall
  report : ErrorEvent → Bytes → ListenCall

-- `accepting` is the connection of the async_accept that is pending.
pub record Listener : Type 0 where
  pub io_service : IoService
  pub next_connection : ℕ
  pub accepting : Option ℕ
  pub calls : List ListenCall

abbrev pub issue : ListenCall → Listener → Listener
issue call l = record l { calls = l.calls ++ call ∷ [] }

-- ConnectionFactory::makeConnection
unfoldable pub make_connection_on : Listener → Listener
make_connection_on l =
    let (io, service) = next_io l.io_service in
    issue (make_connection l.next_connection io)
      (record l { io_service = service; next_connection = l.next_connection + 1 })

unfoldable pub wait_for_connection : Listener → Listener
unfolding make_connection_on
wait_for_connection l =
    let l' = make_connection_on l in
    issue (async_accept l.next_connection) (record l' { accepting = some l.next_connection })

-- The constructor of ConnectionListener.
unfoldable pub make_connection_listener : IoService → Listener
unfolding wait_for_connection
make_connection_listener s =
    wait_for_connection
      (record { io_service = s; next_connection = 0; accepting = none; calls = [] })

unfoldable pub on_connected : ℕ → Option AsioError → Listener → Listener
unfolding wait_for_connection
on_connected connection (some error) l = issue (report connection_error error.message) l
on_connected connection none l = wait_for_connection (issue (process_connection connection) l)

-- The pending async_accept completes.
unfoldable pub accept : Option AsioError → Listener → Listener
unfolding on_connected
accept error l = elim l.accepting [
  | none ↦ l
  | some connection ↦ on_connected connection error (record l { accepting = none })
]

unfoldable pub accept_each : List (Option AsioError) → Listener → Listener
accept_each [] l = l
accept_each (error ∷ rest) l = accept_each rest (accept error l)
