-- ===== src/Net/Link/Order.antt =====
-- The stream of a link: its order, its writes and its end (the write path of src/connection.cpp and
-- src/clientconnection.cpp).
use asyncgi.Common.{
  ℕ, ◌≡◌, refl, sym, ap, subst, ◌∙◌, ◌≢◌, ◌⊎◌, inl, inr, Bool, true, List, [], ◌∷◌, ◌++◌,
  append-nil, arith, Bytes, length, take, sum,
}
use asyncgi.Net.Outbox.{CloseErrors, writes_of, closes}
use asyncgi.Net.Transport.{Transport, Reaction}
use asyncgi.Net.Link.{
  Link, Reach, Step, step_send, step_disconnect, step_written, here, later, IsFresh, sends,
  disconnects, written, unsent,
}
use asyncgi.Net.Link.Invariant.{
  Inv, InvR, push-Inv, request_close-Inv, complete-Inv, complete-Settled,
}
use asyncgi.Net.Link.Writes.{
  one_write, request_close_closed, complete_closed, Drained, Drains, settle-Drains,
}

module _ {ℓ} {S : Type ℓ} (T : Transport S) where
  abbrev LinkInv : Link S → Type 0
  LinkInv l = Inv (T.outbox l.conn) l.in_flight l.wire l.sent

  fresh-Inv : (l : Link S) → IsFresh T l → LinkInv l
  fresh-Inv l f = record {
    settled = record {
      counted = rw (f.no_writes, f.nothing_written) refl;
      one_write = rw f.no_writes tt;
      viewed = λ p. absurd (omega (arith, f.nothing_written));
      small = rw f.nothing_written (omega arith);
      next_small = rw f.nothing_waits (omega arith);
      conserved = rw (f.nothing_written, f.nothing_waits, append-nil) f.wire_is_sent;
    };
    waits = λ _. f.nothing_waits;
  }

  Step-Inv : (l : Link S) {m : Link S} → Step T l m → LinkInv l → LinkInv m
  Step-Inv l (step_send d fits) h =
      subst (λ (r : Reaction). InvR r l.in_flight l.wire (l.sent ++ d))
        (sym (T.send_data_lem d l.conn)) (push-Inv d _ l.in_flight l.wire l.sent fits h)
  Step-Inv l (step_disconnect e) h =
      subst (λ (r : Reaction). InvR r l.in_flight l.wire l.sent) (sym (T.disconnect_lem e l.conn))
        (request_close-Inv _ l.in_flight l.wire l.sent h)
  Step-Inv l (step_written e xs ys n at) h =
      subst
        (λ (r : Reaction).
          InvR r (xs ++ ys) (l.wire ++ take n (T.outbox l.conn).write_buffer) l.sent)
        (sym (T.on_bytes_written_lem e n l.conn))
        (complete-Inv _ xs ys n l.wire l.sent
          (subst (λ (ns : List ℕ). Inv (T.outbox l.conn) ns l.wire l.sent) at h))

  pub Reach-Inv : {l m : Link S} → IsFresh T l → Reach T l m → LinkInv m
  Reach-Inv {l} f here = fresh-Inv l f
  Reach-Inv f (later {m} r st) = Step-Inv m st (Reach-Inv f r)

  pub wire-append-unsent :
      {l m : Link S} → IsFresh T l → Reach T l m → m.wire ++ unsent T m ≡ m.sent
  wire-append-unsent f r = (Reach-Inv f r).settled.conserved

  -- A send while bytes are under way leaves the buffer that they are read from alone.
  pub write_buffer-sends :
      (d : Bytes) (l : Link S)
      → (T.outbox l.conn).bytes_to_write ≢ 0
      → (T.outbox (sends T d l).conn).write_buffer ≡ (T.outbox l.conn).write_buffer
  write_buffer-sends d l busy =
      ap (λ (r : Reaction). r.outbox.write_buffer) (T.send_data_lem d l.conn) ∙ ground arith

  pub in_flight-one :
      {l m : Link S}
      → IsFresh T l
      → Reach T l m
      → (xs ys : List ℕ) (n : ℕ) → m.in_flight ≡ xs ++ n ∷ ys
      → n ≢ 0
      → (n ≡ (T.outbox m.conn).bytes_to_write)
        × (sum (xs ++ ys) ≡ 0)
        × (n ≡ length (T.outbox m.conn).write_buffer)
  in_flight-one {m} f r xs ys n at busy =
      one_write _ xs ys n m.wire m.sent
        (subst (λ (ns : List ℕ). Inv (T.outbox m.conn) ns m.wire m.sent) at (Reach-Inv f r)) busy

  pub disconnects-closes :
      {l m : Link S}
      → IsFresh T l
      → Reach T l m
      → (e : CloseErrors) → closes (T.calls (disconnects T e m).conn) ≡ true
      → m.wire ≡ m.sent
  disconnects-closes {m} f r e c =
      request_close_closed _ m.in_flight m.wire m.sent (Reach-Inv f r)
        (sym (ap (λ (x : Reaction). x.closed) (T.disconnect_lem e m.conn)) ∙ c)

  pub written-closes :
      {l m : Link S}
      → IsFresh T l
      → Reach T l m
      → (e : CloseErrors) (xs ys : List ℕ) (n : ℕ) → m.in_flight ≡ xs ++ n ∷ ys
      → closes (T.calls (written T e xs n ys m).conn) ≡ true
      → (written T e xs n ys m).wire ≡ m.sent
  written-closes {m} f r e xs ys n at c =
      complete_closed _ xs ys n m.wire m.sent
        (subst (λ (ns : List ℕ). Inv (T.outbox m.conn) ns m.wire m.sent) at (Reach-Inv f r))
        (sym (ap (λ (x : Reaction). x.closed) (T.on_bytes_written_lem e n m.conn)) ∙ c)

  abbrev pub did : S → Reaction
  did s = record {
    outbox = T.outbox s;
    writes = writes_of (T.calls s);
    closed = closes (T.calls s);
  }

  -- Nothing is under way or waits, the peer has all of it, and the socket is closed if asked.
  abbrev pub Finished : Link S → Bool → Type 0
  Finished l asked = (sum l.in_flight ≡ 0) × (l.wire ≡ l.sent) × (closes (T.calls l.conn) ≡ asked)

  finished :
      (l : Link S) (ns : List ℕ) (asked : Bool)
      → l.in_flight ≡ ns ++ writes_of (T.calls l.conn)
      → sum ns ≡ 0
      → Drained (did l.conn) l.wire l.sent asked
      → Finished l asked
  finished l ns asked at none_left d = (rw (at, d.0, append-nil) none_left, d.1, d.2)

  pub written-drains :
      {l m : Link S}
      → IsFresh T l
      → Reach T l m
      → (e : CloseErrors) (xs ys : List ℕ) (n : ℕ) → m.in_flight ≡ xs ++ n ∷ ys
      → n ≢ 0
      → Finished (written T e xs n ys m) (T.outbox m.conn).disconnect_requested
        ⊎ ((k : ℕ) × ((written T e xs n ys m).in_flight ≡ (xs ++ ys) ++ k ∷ [])
            × (k ≢ 0)
            × Finished
                (written T e (xs ++ ys) k [] (written T e xs n ys m))
                (T.outbox m.conn).disconnect_requested)
  written-drains {m} f r e xs ys n at busy =
      let h = subst (λ (ns : List ℕ). Inv (T.outbox m.conn) ns m.wire m.sent) at (Reach-Inv f r) in
      let one = one_write _ xs ys n m.wire m.sent h busy in
      let m' = written T e xs n ys m in
      let asked = (T.outbox m.conn).disconnect_requested in
      let drains : Drains (did m'.conn) m'.wire m.sent asked =
        subst (λ (x : Reaction). Drains x m'.wire m.sent asked)
          (sym (T.on_bytes_written_lem e n m.conn))
          (settle-Drains _ (xs ++ ys) _ m.sent (complete-Settled _ xs ys n m.wire m.sent h)
            (omega (arith, one.0, h.settled.small))) in
      elim drains [
        | inl d ↦ inl (finished m' (xs ++ ys) asked refl one.1 d)
        | inr (k, more, busy', d) ↦ inr (
          k,
          ap (λ (ns : List ℕ). (xs ++ ys) ++ ns) more,
          busy',
          finished (written T e (xs ++ ys) k [] m') (xs ++ ys) asked
              (ap (λ (ns : List ℕ). ns ++ writes_of (T.calls (written T e (xs ++ ys) k [] m').conn))
                (append-nil (xs ++ ys)))
              one.1
              (subst
                (λ (x : Reaction).
                  Drained x (m'.wire ++ take k (T.outbox m'.conn).write_buffer) m.sent asked)
                (sym (T.on_bytes_written_lem e k m'.conn)) d),
        )
      ]
