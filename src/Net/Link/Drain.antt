-- ===== src/Net/Link/Drain.antt =====
-- A connection that is sent nothing more: the writes under way complete, one after the other
-- (src/connection.cpp and src/clientconnection.cpp).
use asyncgi.Net.Link.{Link, Reach, IsFresh, written, later, step_written}
use asyncgi.Net.Link.Order.{Reach-Inv}
use asyncgi.Net.Outbox.{Outbox, CloseErrors, sub_size}
use asyncgi.Net.Transport.{Reaction, Transport, complete, settle}
use asyncgi.Net.Link.Invariant.{Inv}
use asyncgi.Net.Link.Writes.{one_write, settle_more, all_sent}
use asyncgi.Common.{
  ℕ, ◌+◌, ◌≤◌, ◌<◌, ◌≡◌, refl, ap, subst, ◌∙◌, ◌≢◌, ◌⊎◌, inl, inr, Bool, true, false, List, ◌∷◌,
  ◌++◌, arith, ◌==◌, if◌then◌else◌, Bool-cases, Bytes, is_empty, sum,
}

-- How many writes are left
abbrev pub writes_left : Outbox → ℕ
writes_left o = if o.bytes_to_write == 0 then 0 else if is_empty o.next_write_buffer then 1 else 2

writes_left-busy :
    (o : Outbox)
    → o.bytes_to_write ≢ 0
    → writes_left o ≡ (if is_empty o.next_write_buffer then 1 else 2)
writes_left-busy o busy = ground arith

one_more : (n : ℕ) (b : Bool) → n ≤ (if b then 0 else 1) → n < (if b then 1 else 2)
one_more n true h = omega arith
one_more n false h = omega arith

pub writes_left-le : (o : Outbox) → writes_left o ≤ 2
writes_left-le o = ground arith

settle-writes_left :
    (o : Outbox)
    → o.bytes_to_write ≡ 0
    → writes_left (settle o).outbox ≤ (if is_empty o.next_write_buffer then 0 else 1)
settle-writes_left o idle = elim (Bool-cases (is_empty o.next_write_buffer)) [
  | inl none_waits ↦ elim (Bool-cases o.disconnect_requested) [
    | inl asked ↦ rw (idle, none_waits, asked) (omega arith)
    | inr not_asked ↦ rw (idle, none_waits, not_asked) (omega arith)
  ]
  | inr more ↦ rw (settle_more o idle more, more) (ground arith)
]

pub complete-writes_left :
    (o : Outbox) (xs ys : List ℕ) (n : ℕ) (wire sent : Bytes)
    → Inv o (xs ++ n ∷ ys) wire sent
    → n ≢ 0
    → writes_left (complete n o).outbox < writes_left o
complete-writes_left o xs ys n wire sent h busy =
    let (whole, alone, viewed) = one_write o xs ys n wire sent h busy in
    let left : sub_size o.bytes_to_write n ≡ 0 = omega (arith, h.settled.small) in
    let down =
      settle-writes_left (record o { bytes_to_write = sub_size o.bytes_to_write n }) left in
    rw (writes_left-busy o (λ idle. busy (whole ∙ idle)))
      (one_more _ (is_empty o.next_write_buffer) down)

module _ {ℓ} {S : Type ℓ} (T : Transport S) where
  -- A number of writes with bytes that complete without an error
  pub data Drain : Link S → ℕ → Link S → Type ℓ where
    rests : {m : Link S} → Drain m 0 m
    proceeds :
        {m m' : Link S} {k : ℕ} (e : CloseErrors) (xs ys : List ℕ) (n : ℕ)
        → m.in_flight ≡ xs ++ n ∷ ys
        → n ≢ 0
        → Drain (written T e xs n ys m) k m'
        → Drain m (k + 1) m'

  pub Drain-Reach : {l m m' : Link S} {k : ℕ} → Reach T l m → Drain m k m' → Reach T l m'
  Drain-Reach r rests = r
  Drain-Reach r (proceeds e xs ys n at busy d) = Drain-Reach (later r (step_written e xs ys n at)) d

  pub Drain-sent : {m m' : Link S} {k : ℕ} → Drain m k m' → m'.sent ≡ m.sent
  Drain-sent rests = refl
  Drain-sent (proceeds e xs ys n at busy d) = Drain-sent d

  pub Drain-writes_left :
      {l m m' : Link S} {k : ℕ}
      → IsFresh T l
      → Reach T l m
      → Drain m k m'
      → k ≤ writes_left (T.outbox m.conn)
  Drain-writes_left f r rests = omega arith
  Drain-writes_left {m} f r (proceeds {k} e xs ys n at busy d) =
      let rest = Drain-writes_left f (later r (step_written e xs ys n at)) d in
      let h =
        subst (λ (ns : List ℕ). Inv (T.outbox m.conn) ns m.wire m.sent) at (Reach-Inv T f r) in
      let down = complete-writes_left (T.outbox m.conn) xs ys n m.wire m.sent h busy in
      let same = ap (λ (x : Reaction). writes_left x.outbox) (T.on_bytes_written_lem e n m.conn) in
      omega (arith, rest, down, same)

  pub Drain-ends :
      {l m m' : Link S} {k : ℕ}
      → IsFresh T l
      → Reach T l m
      → Drain m k m'
      → (k ≤ 2) × ((0 < sum m'.in_flight) ⊎ (m'.wire ≡ m.sent))
  Drain-ends {m} {m'} f r d =
      let bound = Drain-writes_left f r d in
      let h = Reach-Inv T f (Drain-Reach r d) in
      (
        omega (arith, bound, writes_left-le (T.outbox m.conn)),
        elim (Bool-cases ((T.outbox m'.conn).bytes_to_write == 0)) [
          | inl idle ↦ inr (
              all_sent (T.outbox m'.conn) m'.in_flight m'.wire m'.sent h.settled (ground arith)
                (h.waits (ground arith))
              ∙ Drain-sent d)
          | inr busy ↦ inl (ground (arith, h.settled.counted))
        ],
      )
