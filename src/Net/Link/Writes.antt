-- ===== src/Net/Link/Writes.antt =====
-- What one handler of the write path leaves to do (src/connection.cpp and
-- src/clientconnection.cpp).
use asyncgi.Common.{
  ℕ, ◌<◌, ◌≡◌, refl, sym, ◌∙◌, ◌≢◌, ◌⊎◌, inl, inr, Bool, true, false, List, [], ◌∷◌, ◌++◌,
  append-nil, arith, Bool-cases, Bytes, length, is_empty, take, sum, sum-append,
}
use asyncgi.Net.Outbox.{Outbox, size_mod, sub_size}
use asyncgi.Net.Transport.{Reaction, complete, request_close, settle, flush}
use asyncgi.Net.Link.Invariant.{
  Inv, unsent_idle, IsCounted, All-middle, empty-nil, Settled, complete-Settled, take_all,
}

-- A byte under way is the first of the only write that is not empty, and that write is all of
-- writeBuffer_.
pub one_write :
    (o : Outbox) (xs ys : List ℕ) (n : ℕ) (wire sent : Bytes)
    → Inv o (xs ++ n ∷ ys) wire sent
    → n ≢ 0
    → (n ≡ o.bytes_to_write) × (sum (xs ++ ys) ≡ 0) × (n ≡ length o.write_buffer)
one_write o xs ys n wire sent h busy =
    elim (All-middle (IsCounted o.bytes_to_write) xs n ys h.settled.one_write).0 [
      | inl zero_size ↦ absurd (busy zero_size)
      | inr whole ↦
          let sums = h.settled.counted in
          let viewed = h.settled.viewed (omega arith) in
          (whole, omega (arith, sum-append xs (n ∷ ys), sum-append xs ys), omega arith)
    ]

pub settle_done :
    (o : Outbox)
    → o.bytes_to_write ≡ 0
    → o.next_write_buffer ≡ []
    → ((settle o).writes ≡ []) × ((settle o).closed ≡ o.disconnect_requested)
settle_done o idle nil = rw (idle, nil) (ground arith)

pub settle_more :
    (o : Outbox)
    → o.bytes_to_write ≡ 0
    → is_empty o.next_write_buffer ≡ false
    → settle o ≡ flush o (o.next_write_buffer ++ [])
settle_more o idle more = rw (idle, more) refl

pub settle_closed :
    (o : Outbox)
    → (settle o).closed ≡ true
    → (o.bytes_to_write ≡ 0) × (is_empty o.next_write_buffer ≡ true)
settle_closed o c = (ground arith, ground arith)

pub all_sent :
    (o : Outbox) (fl : List ℕ) (wire sent : Bytes)
    → Settled o fl wire sent
    → o.bytes_to_write ≡ 0
    → o.next_write_buffer ≡ []
    → wire ≡ sent
all_sent o fl wire sent h idle nil =
    sym (append-nil wire) ∙ (rw (unsent_idle o idle, nil) at h.conserved)

pub request_close_closed :
    (o : Outbox) (fl : List ℕ) (wire sent : Bytes)
    → Inv o fl wire sent
    → (request_close o).closed ≡ true
    → wire ≡ sent
request_close_closed o fl wire sent h c =
    let idle : o.bytes_to_write ≡ 0 = ground arith in
    all_sent o fl wire sent h.settled idle (h.waits idle)

pub complete_closed :
    (o : Outbox) (xs ys : List ℕ) (n : ℕ) (wire sent : Bytes)
    → Inv o (xs ++ n ∷ ys) wire sent
    → (complete n o).closed ≡ true
    → wire ++ take n o.write_buffer ≡ sent
complete_closed o xs ys n wire sent h c =
    let left : Outbox = record o { bytes_to_write = sub_size o.bytes_to_write n } in
    let (idle, none_waits) = settle_closed left c in
    all_sent left (xs ++ ys) _ sent (complete-Settled o xs ys n wire sent h) idle
      (empty-nil _ none_waits)

-- What is left to do after the write under way: nothing, or one more write.
abbrev pub Drained : Reaction → Bytes → Bytes → Bool → Type 0
Drained r wire sent asked = (r.writes ≡ []) × (wire ≡ sent) × (r.closed ≡ asked)

abbrev pub Drains : Reaction → Bytes → Bytes → Bool → Type 0
Drains r wire sent asked =
    Drained r wire sent asked
    ⊎ ((k : ℕ) × (r.writes ≡ k ∷ [])
        × (k ≢ 0)
        × Drained (complete k r.outbox) (wire ++ take k r.outbox.write_buffer) sent asked)

pub flush-Drained :
    (o : Outbox) (bytes wire sent : Bytes)
    → o.bytes_to_write ≡ 0
    → length bytes < size_mod
    → wire ++ bytes ≡ sent
    → Drained
        (complete (length bytes) (flush o bytes).outbox)
        (wire ++ take (length bytes) bytes)
        sent
        o.disconnect_requested
flush-Drained o bytes wire sent idle fits all =
    let (none_left, asked) =
      settle_done
        (record (flush o bytes).outbox {
          bytes_to_write = sub_size (flush o bytes).outbox.bytes_to_write (length bytes);
        })
        (omega arith) refl in
    (none_left, rw (take_all (length bytes) bytes refl) all, asked)

pub settle-Drains :
    (o : Outbox) (fl : List ℕ) (wire sent : Bytes)
    → Settled o fl wire sent
    → o.bytes_to_write ≡ 0
    → Drains (settle o) wire sent o.disconnect_requested
settle-Drains o fl wire sent h idle = elim (Bool-cases (is_empty o.next_write_buffer)) [
  | inl none_waits ↦
      let nil = empty-nil o.next_write_buffer none_waits in
      let (no_writes, closed) = settle_done o idle nil in
      inl (no_writes, all_sent o fl wire sent h idle nil, closed)
  | inr more ↦
      rw (settle_more o idle more, append-nil)
        (inr (
          length o.next_write_buffer,
          refl,
          ground arith,
          flush-Drained o o.next_write_buffer wire sent idle h.next_small
              (rw (unsent_idle o idle) at h.conserved),
        ))
]
