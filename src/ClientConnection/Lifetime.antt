-- ===== src/ClientConnection/Lifetime.antt =====
-- The destruction of a ClientConnection (src/clientconnection.cpp). ClientService owns it by a
-- std::unique_ptr, and the handlers of its operations hold a bare `this`: asio runs those that are
-- pending after the socket is closed, each with operation_aborted.
use asyncgi.Events.{AsioError, socket_write_error}
use asyncgi.Net.Outbox.{Call, CloseErrors, event}
use asyncgi.ClientConnection.Defs.{
  ClientConnection, on_connected, on_read, on_write, close, fresh, Attempt, refused,
}
use asyncgi.Common.{
  ◌≡◌, refl, sym, ◌∙◌, true, false, Option, some, List, [], ◌∷◌, ◌++◌, append-nil, append_assoc,
  arith, Bytes,
}

-- An operation that was started and whose handler did not run yet.
pub data Operation : Type 0 where
  connects_socket : Operation
  reads_socket : Operation
  writes_socket : Operation

-- ~ClientConnection
unfoldable pub destruct : CloseErrors → ClientConnection → ClientConnection
unfolding close
destruct e c = close e c

module _ {ℓ} {Handle : Type ℓ} (receive : Bytes → ClientConnection → ClientConnection)
    (send_request : ClientConnection → Option Handle × ClientConnection) (e : CloseErrors) where
  -- The handler of a pending operation runs, and the requests that it refuses join the others.
  unfoldable pub ends_with :
      AsioError
      → Operation
      → List (Attempt Handle) × ClientConnection
      → List (Attempt Handle) × ClientConnection
  ends_with error connects_socket (attempts, c) =
      let (attempted, c') = on_connected send_request false (some error) c in
      (attempts ++ attempted ∷ [], c')
  ends_with error reads_socket (attempts, c) = (attempts, on_read receive false (some error) [] c)
  ends_with error writes_socket (attempts, c) = (attempts, on_write e (some error) 0 c)

  unfoldable pub all_end_with :
      AsioError
      → List Operation
      → List (Attempt Handle) × ClientConnection
      → List (Attempt Handle) × ClientConnection
  unfolding ends_with
  all_end_with error [] x = x
  all_end_with error (op ∷ rest) x = all_end_with error rest (ends_with error op x)

-- One report for each pending write
abbrev pub write_reports : AsioError → List Operation → List Call
write_reports error [] = []
write_reports error (connects_socket ∷ rest) = write_reports error rest
write_reports error (reads_socket ∷ rest) = write_reports error rest
write_reports error (writes_socket ∷ rest) =
    event socket_write_error error.message ∷ write_reports error rest

-- One refusal for each pending connect
abbrev pub refusals {ℓ} : {Handle : Type ℓ} → List Operation → List (Attempt Handle)
refusals [] = []
refusals (connects_socket ∷ rest) = refused ∷ refusals rest
refusals (reads_socket ∷ rest) = refusals rest
refusals (writes_socket ∷ rest) = refusals rest

module _ {ℓ} {Handle : Type ℓ} (receive : Bytes → ClientConnection → ClientConnection)
    (send_request : ClientConnection → Option Handle × ClientConnection) (e : CloseErrors)
    (error : AsioError) where
  on_read-aborted :
      (c : ClientConnection)
      → error.is_operation_aborted ≡ true
      → on_read receive false (some error) [] c ≡ c
  unfolding on_read
  on_read-aborted c aborted = ground arith

  aborted-ends :
      (ops : List Operation) (attempts : List (Attempt Handle)) (c : ClientConnection)
      → error.is_operation_aborted ≡ true
      → ((all_end_with receive send_request e error ops (attempts, c)).0 ≡ attempts ++ refusals ops)
        × ((all_end_with receive send_request e error ops (attempts, c)).1
            ≡ record c { calls = c.calls ++ write_reports error ops })
  unfolding all_end_with ends_with on_connected on_write
  aborted-ends [] attempts c aborted = (sym (append-nil attempts), rw append-nil refl)
  aborted-ends (connects_socket ∷ rest) attempts c aborted =
      let (a, b) = aborted-ends rest (attempts ++ refused ∷ []) c aborted in
      (a ∙ append_assoc attempts _ _, b)
  aborted-ends (reads_socket ∷ rest) attempts c aborted =
      rw (on_read-aborted c aborted, all_end_with) (aborted-ends rest attempts c aborted)
  aborted-ends (writes_socket ∷ rest) attempts c aborted =
      let (a, b) = aborted-ends rest attempts (on_write e (some error) 0 c) aborted in
      (a, b ∙ rw append_assoc refl)

  -- When a ClientConnection is destroyed with some operations pending, and asio then runs their
  -- handlers with operation_aborted: the destroyed connection is used once for each pending write,
  -- whose handler reports SocketWriteError by its eventHandler_, and is not changed or used by any
  -- other handler. Each pending connect is refused.
  pub destroyed_connection_reports_writes :
      (ops : List Operation) (c : ClientConnection)
      → error.is_operation_aborted ≡ true
      → ((all_end_with receive send_request e error ops ([], fresh (destruct e c))).0
          ≡ refusals ops)
        × ((all_end_with receive send_request e error ops ([], fresh (destruct e c))).1
            ≡ record (destruct e c) { calls = write_reports error ops })
  destroyed_connection_reports_writes ops c aborted =
      aborted-ends ops [] (fresh (destruct e c)) aborted
