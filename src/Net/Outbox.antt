-- ===== src/Net/Outbox.antt =====
-- The fields and the calls that src/connection.h and src/clientconnection.h have in common.
use asyncgi.Common.{ℕ, ◌+◌, ◌-◌, ◌%◌, ◌^◌, Bool, Option, List, [], ◌∷◌, Bytes}
use asyncgi.Events.{ErrorEvent, AsioError}

-- A call that leaves the program. A buffer is handed to asio::async_write as a view of
-- writeBuffer_, so the call carries the size of the view.
pub data Call : Type 0 where
  async_read_some : Call
  async_write : ℕ → Call
  async_connect : Call
  shutdown_socket : Call
  close_socket : Call
  event : ErrorEvent → Bytes → Call

-- What shutdown and close write to their error argument.
pub record CloseErrors : Type 0 where
  pub on_shutdown : Option AsioError
  pub on_close : Option AsioError

-- The range of std::size_t.
abbrev pub size_mod : ℕ
size_mod = 2 ^ 64

abbrev pub add_size : ℕ → ℕ → ℕ
add_size a b = (a + b) % size_mod

abbrev pub sub_size : ℕ → ℕ → ℕ
sub_size a b = (a + size_mod - b) % size_mod

-- writeBuffer_, nextWriteBuffer_, bytesToWrite_ and disconnectRequested_.
pub record Outbox : Type 0 where
  pub write_buffer : Bytes
  pub next_write_buffer : Bytes
  pub bytes_to_write : ℕ
  pub disconnect_requested : Bool

abbrev pub empty_outbox : Outbox
empty_outbox = record {
  write_buffer = [];
  next_write_buffer = [];
  bytes_to_write = 0;
  disconnect_requested = Bool.false;
}

-- The sizes of the writes among some calls, in their order.
abbrev pub writes_of : List Call → List ℕ
writes_of [] = []
writes_of (async_write n ∷ cs) = n ∷ writes_of cs
writes_of (async_read_some ∷ cs) = writes_of cs
writes_of (async_connect ∷ cs) = writes_of cs
writes_of (shutdown_socket ∷ cs) = writes_of cs
writes_of (close_socket ∷ cs) = writes_of cs
writes_of (event e m ∷ cs) = writes_of cs

-- Whether the socket is closed by some calls.
abbrev pub closes : List Call → Bool
closes [] = Bool.false
closes (async_write n ∷ cs) = closes cs
closes (async_read_some ∷ cs) = closes cs
closes (async_connect ∷ cs) = closes cs
closes (shutdown_socket ∷ cs) = closes cs
closes (close_socket ∷ cs) = Bool.true
closes (event e m ∷ cs) = closes cs
