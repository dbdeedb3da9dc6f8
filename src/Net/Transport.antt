-- ===== src/Net/Transport.antt =====
-- The write path of a connection as its users see it: what each operation does to the fields, the
-- writes that it starts, and whether it closes the socket. src/connection.cpp and
-- src/clientconnection.cpp each implement it.
use asyncgi.Common.{
  ℕ, ◌≡◌, Bool, true, false, List, [], ◌∷◌, ◌++◌, ◌==◌, if◌then◌else◌, Bytes, length, is_empty,
}
use asyncgi.Net.Outbox.{Call, CloseErrors, Outbox, add_size, sub_size, writes_of, closes}

-- What one handler did.
pub record Reaction : Type 0 where
  pub outbox : Outbox
  pub writes : List ℕ
  pub closed : Bool

abbrev pub quiet : Outbox → Reaction
quiet o = record { outbox = o; writes = []; closed = false }

-- Everything that waits goes out in one write.
abbrev pub flush : Outbox → Bytes → Reaction
flush o bytes = record {
  outbox = record o {
    write_buffer = bytes;
    next_write_buffer = [];
    bytes_to_write = add_size o.bytes_to_write (length bytes);
  };
  writes = length bytes ∷ [];
  closed = false;
}

-- Data is written at once, or waits for the write that is under way.
abbrev pub push : Bytes → Outbox → Reaction
push d o =
    if o.bytes_to_write == 0
    then flush o (o.next_write_buffer ++ d)
    else quiet (record o { next_write_buffer = o.next_write_buffer ++ d })

abbrev pub hang_up : Outbox → Reaction
hang_up o = record {
  outbox = record o { disconnect_requested = false };
  writes = [];
  closed = true;
}

-- The end of a write starts the next one, or closes the socket if that was asked for.
abbrev pub settle : Outbox → Reaction
settle o =
    if o.bytes_to_write == 0
    then (if is_empty o.next_write_buffer
        then (if o.disconnect_requested then hang_up o else quiet o)
        else flush o (o.next_write_buffer ++ []))
    else quiet o

abbrev pub complete : ℕ → Outbox → Reaction
complete n o = settle (record o { bytes_to_write = sub_size o.bytes_to_write n })

-- A request to disconnect is met at once only if nothing is being written.
abbrev pub request_close : Outbox → Reaction
request_close o =
    if o.bytes_to_write == 0 then hang_up o else quiet (record o { disconnect_requested = true })

pub record Transport {ℓ} (S : Type ℓ) : Type ℓ where
  pub outbox : S → Outbox
  pub calls : S → List Call
  -- A handler starts with no calls made.
  pub fresh : S → S
  pub send_data : Bytes → S → S
  pub on_bytes_written : CloseErrors → ℕ → S → S
  pub disconnect : CloseErrors → S → S
  pub send_data_lem :
      (d : Bytes) (s : S)
      → ◌≡◌ {A = Reaction}
          (record {
            outbox = outbox (send_data d (fresh s));
            writes = writes_of (calls (send_data d (fresh s)));
            closed = closes (calls (send_data d (fresh s)));
          })
          (push d (outbox s))
  pub on_bytes_written_lem :
      (e : CloseErrors) (n : ℕ) (s : S)
      → ◌≡◌ {A = Reaction}
          (record {
            outbox = outbox (on_bytes_written e n (fresh s));
            writes = writes_of (calls (on_bytes_written e n (fresh s)));
            closed = closes (calls (on_bytes_written e n (fresh s)));
          })
          (complete n (outbox s))
  pub disconnect_lem :
      (e : CloseErrors) (s : S)
      → ◌≡◌ {A = Reaction}
          (record {
            outbox = outbox (disconnect e (fresh s));
            writes = writes_of (calls (disconnect e (fresh s)));
            closed = closes (calls (disconnect e (fresh s)));
          })
          (request_close (outbox s))
