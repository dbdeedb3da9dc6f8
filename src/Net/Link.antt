-- ===== src/Net/Link.antt =====
-- A connection with the socket below it: the writes that asio has been given and has not completed,
-- what has reached the peer, and what the connection was asked to send. `T` is the connection's
-- write path: src/connection.cpp or src/clientconnection.cpp.
pub mod Invariant
pub mod Writes
pub mod Order
pub mod Drain
pub mod Asked
use asyncgi.Common.{ℕ, ◌+◌, ◌<◌, ◌≡◌, List, [], ◌∷◌, ◌++◌, Bytes, length, take}
use asyncgi.Net.Outbox.{CloseErrors, size_mod, writes_of}
use asyncgi.Net.Transport.{Transport}

pub record Link {ℓ} (S : Type ℓ) : Type ℓ where
  pub conn : S
  pub in_flight : List ℕ
  pub wire : Bytes
  pub sent : Bytes

module _ {ℓ} {S : Type ℓ} (T : Transport S) where
  -- The writes that a handler starts join those that are under way.
  abbrev pub react : Link S → S → Link S
  react l s = record l { conn = s; in_flight = l.in_flight ++ writes_of (T.calls s) }

  abbrev pub sends : Bytes → Link S → Link S
  sends d l = record (react l (T.send_data d (T.fresh l.conn))) { sent = l.sent ++ d }

  abbrev pub disconnects : CloseErrors → Link S → Link S
  disconnects e l = react l (T.disconnect e (T.fresh l.conn))

  -- asio::async_write completes without an error when its whole buffer is written; the buffer is a
  -- view of writeBuffer_, so what goes out is what stands there at that time.
  abbrev pub written : CloseErrors → List ℕ → ℕ → List ℕ → Link S → Link S
  written e xs n ys l =
      let done = record l {
        in_flight = xs ++ ys;
        wire = l.wire ++ take n (T.outbox l.conn).write_buffer;
      } in
      react done (T.on_bytes_written e n (T.fresh l.conn))

  -- A string that would be longer than size_t can count throws, and is never sent.
  pub data Step (l : Link S) : Link S → Type ℓ where
    step_send :
        (d : Bytes)
        → length (T.outbox l.conn).next_write_buffer + length d < size_mod
        → Step l (sends d l)
    step_disconnect : (e : CloseErrors) → Step l (disconnects e l)
    step_written :
        (e : CloseErrors) (xs ys : List ℕ) (n : ℕ)
        → l.in_flight ≡ xs ++ n ∷ ys
        → Step l (written e xs n ys l)

  pub data Reach (l : Link S) : Link S → Type ℓ where
    here : Reach l l
    later : {m n : Link S} → Reach l m → Step m n → Reach l n

  pub record IsFresh (l : Link S) : Type ℓ where
    pub nothing_waits : (T.outbox l.conn).next_write_buffer ≡ []
    pub nothing_written : (T.outbox l.conn).bytes_to_write ≡ 0
    pub no_writes : l.in_flight ≡ []
    pub wire_is_sent : l.wire ≡ l.sent

  -- What was accepted and has not reached the peer.
  abbrev pub unsent : Link S → Bytes
  unsent l =
      take (T.outbox l.conn).bytes_to_write (T.outbox l.conn).write_buffer
      ++ (T.outbox l.conn).next_write_buffer
