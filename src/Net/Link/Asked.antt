-- ===== src/Net/Link/Asked.antt =====
-- Whether disconnect() was called on a link since its socket was last closed (disconnectRequested_ of
-- src/connection.cpp and src/clientconnection.cpp).
use asyncgi.Common.{ℕ, ◌≡◌, refl, sym, ap, ◌∙◌, Bool, not, ◌&&◌, arith, Bytes}
use asyncgi.Net.Outbox.{Outbox, closes}
use asyncgi.Net.Transport.{Transport, Reaction, push, complete, request_close}
use asyncgi.Net.Link.{
  Link, Reach, step_send, step_disconnect, step_written, here, later, disconnects, written,
}

push-flag :
    (d : Bytes) (o : Outbox) → (push d o).outbox.disconnect_requested ≡ o.disconnect_requested
push-flag d o = ground arith

request_close-flag :
    (o : Outbox) → (request_close o).outbox.disconnect_requested ≡ not (request_close o).closed
request_close-flag o = ground arith

complete-flag :
    (n : ℕ) (o : Outbox)
    → (complete n o).outbox.disconnect_requested
      ≡ o.disconnect_requested && not (complete n o).closed
complete-flag n o = ground arith

module _ {ℓ} {S : Type ℓ} (T : Transport S) where
  -- The steps say it: a disconnect() asks, unless it closes the socket itself, and a completed write
  -- that closes the socket has done what was asked. At the start it is what the link has.
  abbrev pub asked_to_close : {l m : Link S} → Reach T l m → Bool
  asked_to_close {l} here = (T.outbox l.conn).disconnect_requested
  asked_to_close (later r (step_send d fits)) = asked_to_close r
  asked_to_close (later {m} r (step_disconnect e)) = not (closes (T.calls (disconnects T e m).conn))
  asked_to_close (later {m} r (step_written e xs ys n at)) =
      asked_to_close r && not (closes (T.calls (written T e xs n ys m).conn))

  pub disconnect_requested-asked :
      {l m : Link S} (r : Reach T l m) → (T.outbox m.conn).disconnect_requested ≡ asked_to_close r
  disconnect_requested-asked here = refl
  disconnect_requested-asked (later {m} r (step_send d fits)) =
      ap (λ (x : Reaction). x.outbox.disconnect_requested) (T.send_data_lem d m.conn)
      ∙ push-flag d (T.outbox m.conn)
      ∙ disconnect_requested-asked r
  disconnect_requested-asked (later {m} r (step_disconnect e)) =
      ap (λ (x : Reaction). x.outbox.disconnect_requested) (T.disconnect_lem e m.conn)
      ∙ request_close-flag (T.outbox m.conn)
      ∙ ap (λ (x : Reaction). not x.closed) (sym (T.disconnect_lem e m.conn))
  disconnect_requested-asked (later {m} r (step_written e xs ys n at)) =
      ap (λ (x : Reaction). x.outbox.disconnect_requested) (T.on_bytes_written_lem e n m.conn)
      ∙ complete-flag n (T.outbox m.conn)
      ∙ ap (λ (x : Reaction). (T.outbox m.conn).disconnect_requested && not x.closed)
          (sym (T.on_bytes_written_lem e n m.conn))
      ∙ ap (λ b. b && not (closes (T.calls (written T e xs n ys m).conn)))
          (disconnect_requested-asked r)
