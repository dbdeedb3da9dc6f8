-- ===== src/Connection/Order.antt =====
-- The stream of bytes that a Connection writes (src/connection.cpp), with the socket below it.
use asyncgi.Net.Outbox.{CloseErrors, closes}
use asyncgi.Common.{
  ℕ, ◌≤◌, ◌<◌, ◌≡◌, subst, ◌∙◌, ◌≢◌, ◌⊎◌, Bool, true, List, [], ◌∷◌, ◌++◌, Bytes, length, sum,
}
use asyncgi.Net.Link.{Link, Reach, IsFresh, unsent, sends, disconnects, written}
use asyncgi.Net.Link.Drain.{Drain, Drain-ends}
use asyncgi.Net.Link.Asked.{asked_to_close, disconnect_requested-asked}
use asyncgi.Net.Link.Order.{
  wire-append-unsent, write_buffer-sends, in_flight-one, disconnects-closes, written-closes,
  written-drains, Finished,
}
use asyncgi.Connection.Transport.{transport}
use asyncgi.Connection.Defs.{Connection}

module _ {ℓ} {Q R : Type ℓ} {l m : Link (Connection Q R)} (start : IsFresh transport l)
    (r : Reach transport l m) where
  -- From a link with nothing sent or waiting, after any sequence of sendData (of data that, with
  -- what waits, is below 2 ^ 64 bytes), disconnect and completed writes: what has reached the peer,
  -- then what is left of the write under way, then what waits in nextWriteBuffer_, is exactly the
  -- data given to sendData, in its order.
  pub stream_in_order : m.wire ++ unsent transport m ≡ m.sent
  stream_in_order = wire-append-unsent transport start r

  -- In every state that sendData (of data that, with what waits, is below 2 ^ 64 bytes), disconnect
  -- and completed writes reach from a link with nothing sent or waiting, a write under way that is
  -- not empty is the only one: the others together have no byte. Its size is bytesToWrite_ and the
  -- length of writeBuffer_, and a sendData leaves writeBuffer_, which the write reads, as it is.
  pub one_write_at_a_time :
      (xs ys : List ℕ) (n : ℕ) (d : Bytes)
      → m.in_flight ≡ xs ++ n ∷ ys
      → n ≢ 0
      → (n ≡ m.conn.outbox.bytes_to_write)
        × (sum (xs ++ ys) ≡ 0)
        × (n ≡ length m.conn.outbox.write_buffer)
        × ((sends transport d m).conn.outbox.write_buffer ≡ m.conn.outbox.write_buffer)
  one_write_at_a_time xs ys n d at busy =
      let (counted, alone, viewed) = in_flight-one transport start r xs ys n at busy in
      (counted, alone, viewed, write_buffer-sends transport d m (λ idle. busy (counted ∙ idle)))

  -- In every state that sendData (of data that, with what waits, is below 2 ^ 64 bytes), disconnect
  -- and completed writes reach from a link with nothing sent or waiting, if the completion of a
  -- write without an error closes the socket, then with that write all the data given to sendData
  -- has reached the peer.
  pub write_closes_at_the_end :
      (e : CloseErrors) (xs ys : List ℕ) (n : ℕ)
      → m.in_flight ≡ xs ++ n ∷ ys
      → closes (written transport e xs n ys m).conn.calls ≡ true
      → (written transport e xs n ys m).wire ≡ m.sent
  write_closes_at_the_end e xs ys n = written-closes transport start r e xs ys n

  -- In every state that sendData (of data that, with what waits, is below 2 ^ 64 bytes), disconnect
  -- and completed writes reach from a link with nothing sent or waiting, if disconnect() closes the
  -- socket at once, then all the data given to sendData has reached the peer.
  pub disconnect_closes_at_the_end :
      (e : CloseErrors) → closes (disconnects transport e m).conn.calls ≡ true → m.wire ≡ m.sent
  disconnect_closes_at_the_end e = disconnects-closes transport start r e

  -- In every state that sendData (of data that, with what waits, is below 2 ^ 64 bytes), disconnect
  -- and completed writes reach from a link with nothing sent or waiting, with bytes under way: when
  -- that write completes, or else when the one write that it starts completes, no byte is under
  -- way, the peer has all the data given to sendData, and that completion closes the socket exactly if
  -- a disconnect() among those steps was not followed by a close of the socket yet (or was under way
  -- at their beginning).
  pub drains :
      (e : CloseErrors) (xs ys : List ℕ) (n : ℕ)
      → m.in_flight ≡ xs ++ n ∷ ys
      → n ≢ 0
      → Finished transport (written transport e xs n ys m) (asked_to_close transport r)
        ⊎ ((k : ℕ) × ((written transport e xs n ys m).in_flight ≡ (xs ++ ys) ++ k ∷ [])
            × (k ≢ 0)
            × Finished transport
                (written transport e (xs ++ ys) k [] (written transport e xs n ys m))
                (asked_to_close transport r))
  drains e xs ys n at busy =
      subst
        (λ (asked : Bool).
          Finished transport (written transport e xs n ys m) asked
          ⊎ ((k : ℕ) × ((written transport e xs n ys m).in_flight ≡ (xs ++ ys) ++ k ∷ [])
              × (k ≢ 0)
              × Finished transport
                  (written transport e (xs ++ ys) k [] (written transport e xs n ys m)) asked))
        (disconnect_requested-asked transport r)
        (written-drains transport start r e xs ys n at busy)

  -- In every state that sendData (of data that, with what waits, is below 2 ^ 64 bytes), disconnect
  -- and completed writes reach from a link with nothing sent or waiting: when nothing more is sent,
  -- at most two writes with bytes still complete, one after the other; and once no byte is under way,
  -- all the data given to sendData has reached the peer.
  pub writing_ends :
      {m' : Link (Connection Q R)} {k : ℕ}
      → Drain transport m k m'
      → (k ≤ 2) × ((0 < sum m'.in_flight) ⊎ (m'.wire ≡ m.sent))
  writing_ends d = Drain-ends transport start r d
