-- ===== src/Connection/Session/Log.antt =====
-- What the operations of a connection add to its log, and that they keep the invariant of the write path.
use asyncgi.Response.Processor.{FastcgiResponse}
use asyncgi.Connection.Requests.{HttpResponse, responder_send_fastcgi, run_callbacks, lock}
use asyncgi.Response.Sender.{
  FcgiResponse, Callback, ResponseSender, callback_send, callback_disconnect, is_sent,
  send_with_error-first,
}
use asyncgi.Events.{socket_close_error, AsioError, ErrorEvent}
use asyncgi.Net.Transport.{push, request_close}
use asyncgi.Connection.Defs.{Connection, send_data, disconnect, close, issue}
use asyncgi.Net.Outbox.{
  Call, Outbox, writes_of, async_write, event, CloseErrors, async_read_some, async_connect,
  shutdown_socket, close_socket, size_mod,
}
use asyncgi.Common.{
  ℕ, ◌≤◌, ◌<◌, ◌≡◌, refl, ap, ◌∙◌, true, false, Option, none, some, List, [], ◌∷◌, ◌++◌, append-nil,
  append_assoc, arith, Bytes, length, take, length-append,
}
use asyncgi.Net.Link.Invariant.{Inv, push-Inv, request_close-Inv, unsent_bytes}
use asyncgi.Connection.Session.Promise.{bytes_of, answer_bytes}

pub writes_of-append : (xs ys : List Call) → writes_of (xs ++ ys) ≡ writes_of xs ++ writes_of ys
writes_of-append [] ys = refl
writes_of-append (async_write n ∷ xs) ys = ap (λ ns. n ∷ ns) (writes_of-append xs ys)
writes_of-append (async_read_some ∷ xs) ys = writes_of-append xs ys
writes_of-append (async_connect ∷ xs) ys = writes_of-append xs ys
writes_of-append (shutdown_socket ∷ xs) ys = writes_of-append xs ys
writes_of-append (close_socket ∷ xs) ys = writes_of-append xs ys
writes_of-append (event e m ∷ xs) ys = writes_of-append xs ys

-- What waits is a part of what was sent.
pub next_write_buffer-le :
    (o : Outbox) (fl : List ℕ) (wire sent : Bytes)
    → Inv o fl wire sent
    → length o.next_write_buffer ≤ length sent
next_write_buffer-le o fl wire sent h = omega (
  arith,
  ap length h.settled.conserved,
  length-append wire (unsent_bytes o),
  length-append (take o.bytes_to_write o.write_buffer) o.next_write_buffer,
)

module _ {ℓ} {Q R : Type ℓ} where
  -- The invariant, with the writes in the log under way.
  abbrev pub Logged : List ℕ → Bytes → Bytes → Connection Q R → Type 0
  Logged fl wire sent c = Inv c.outbox (fl ++ writes_of c.calls) wire sent

  pub send_data-log :
      (d : Bytes) (c : Connection Q R)
      → ((send_data d c).outbox ≡ (push d c.outbox).outbox)
        × (writes_of (send_data d c).calls ≡ writes_of c.calls ++ (push d c.outbox).writes)
  unfolding send_data
  send_data-log d c = (
    ground arith,
    ground (
      arith,
      append-nil (writes_of c.calls),
      writes_of-append c.calls (async_write (length (push d c.outbox).outbox.write_buffer) ∷ []),
    ),
  )

  -- A call that is not a write adds none.
  pub issue-log :
      (call : Call) (c : Connection Q R)
      → writes_of (call ∷ []) ≡ []
      → writes_of (issue call c).calls ≡ writes_of c.calls
  issue-log call c h = writes_of-append c.calls (call ∷ []) ∙ rw (h, append-nil) refl

  pub close-log :
      (e : CloseErrors) (c : Connection Q R) → writes_of (close e c).calls ≡ writes_of c.calls
  unfolding close
  close-log e c =
      let shut =
        issue-log close_socket (issue shutdown_socket c) refl ∙ issue-log shutdown_socket c refl in
      elim e.on_close
        as (λ (o : Option AsioError).
          writes_of (close (record e { on_close = o }) c).calls ≡ writes_of c.calls) [
            | none ↦ shut
            | some error ↦
                issue-log (event socket_close_error error.message)
                  (issue close_socket (issue shutdown_socket c)) refl
                ∙ shut
          ]

  pub disconnect-log :
      (e : CloseErrors) (c : Connection Q R)
      → ((disconnect e c).outbox ≡ (request_close c.outbox).outbox)
        × (writes_of (disconnect e c).calls ≡ writes_of c.calls ++ (request_close c.outbox).writes)
  unfolding disconnect
  disconnect-log e c = (
    ground arith,
    ground (
      arith,
      append-nil (writes_of c.calls),
      close-log e (record c { outbox = record c.outbox { disconnect_requested = true } }),
    ),
  )

  send_data-Logged :
      (d : Bytes) (fl : List ℕ) (wire sent : Bytes) (c : Connection Q R)
      → length (sent ++ d) < size_mod
      → Logged fl wire sent c
      → Logged fl wire (sent ++ d) (send_data d c)
  send_data-Logged d fl wire sent c fits h =
      let waiting = next_write_buffer-le c.outbox _ wire sent h in
      let pushed =
        push-Inv d c.outbox (fl ++ writes_of c.calls) wire sent
          (omega (arith, length-append sent d)) h in
      rw ((send_data-log d c).0, (send_data-log d c).1, ← append_assoc) pushed

  disconnect-Logged :
      (e : CloseErrors) (fl : List ℕ) (wire sent : Bytes) (c : Connection Q R)
      → Logged fl wire sent c
      → Logged fl wire sent (disconnect e c)
  disconnect-Logged e fl wire sent c h =
      let asked = request_close-Inv c.outbox (fl ++ writes_of c.calls) wire sent h in
      rw ((disconnect-log e c).0, (disconnect-log e c).1, ← append_assoc) asked

  pub event-Logged :
      (x : ErrorEvent) (m : Bytes) (fl : List ℕ) (wire sent : Bytes) (c : Connection Q R)
      → Logged fl wire sent c
      → Logged fl wire sent (issue (event x m) c)
  event-Logged x m fl wire sent c h = rw (issue-log (event x m) c refl) h

  send_data-next_context :
      (d : Bytes) (c : Connection Q R) → (send_data d c).next_context ≡ c.next_context
  unfolding send_data
  send_data-next_context d c = ground arith

  disconnect-next_context :
      (e : CloseErrors) (c : Connection Q R) → (disconnect e c).next_context ≡ c.next_context
  unfolding disconnect
  disconnect-next_context e c = ground arith

module _ {ℓ} {Q F H : Type ℓ} (fcgi : FcgiResponse F) (http : HttpResponse H) where
  run_callbacks-Logged :
      (e : CloseErrors) (callbacks : List Callback) (fl : List ℕ) (wire sent : Bytes)
      (c : Connection Q (ResponseSender F))
      → length (sent ++ bytes_of callbacks) < size_mod
      → Logged fl wire sent c
      → Logged fl wire (sent ++ bytes_of callbacks) (run_callbacks fcgi http e callbacks c)
  unfolding run_callbacks
  run_callbacks-Logged e [] fl wire sent c fits h = rw append-nil h
  run_callbacks-Logged e (callback_send d ∷ rest) fl wire sent c fits h = rw (← append_assoc) (
      run_callbacks-Logged e rest fl wire (sent ++ d) (send_data d c) (rw (append_assoc) fits) (
        send_data-Logged d fl wire sent c
          (omega (
            arith,
            ap length (append_assoc sent d (bytes_of rest)),
            length-append (sent ++ d) (bytes_of rest),
          ))
          h))
  run_callbacks-Logged e (callback_disconnect ∷ rest) fl wire sent c fits h =
      run_callbacks-Logged e rest fl wire sent (disconnect e c) fits
        (disconnect-Logged e fl wire sent c h)

  run_callbacks-next_context :
      (e : CloseErrors) (callbacks : List Callback) (c : Connection Q (ResponseSender F))
      → (run_callbacks fcgi http e callbacks c).next_context ≡ c.next_context
  unfolding run_callbacks
  run_callbacks-next_context e [] c = refl
  run_callbacks-next_context e (callback_send d ∷ rest) c =
      run_callbacks-next_context e rest (send_data d c) ∙ send_data-next_context d c
  run_callbacks-next_context e (callback_disconnect ∷ rest) c =
      run_callbacks-next_context e rest (disconnect e c) ∙ disconnect-next_context e c

  -- A response that is not sent yet goes out whole.
  pub send-Logged :
      (e : CloseErrors) (id : ℕ) (r : FastcgiResponse) (fl : List ℕ) (wire sent : Bytes)
      (c : Connection Q (ResponseSender F)) (s : ResponseSender F)
      → lock fcgi http id c ≡ some s
      → is_sent fcgi s ≡ false
      → length (sent ++ answer_bytes fcgi r s.response) < size_mod
      → Logged fl wire sent c
      → Logged fl wire
          (sent ++ answer_bytes fcgi r s.response)
          (responder_send_fastcgi fcgi http e id r c)
        × ((responder_send_fastcgi fcgi http e id r c).next_context ≡ c.next_context)
  unfolding responder_send_fastcgi
  send-Logged e id r fl wire sent c s locked valid fits h =
      let (spent, callbacks) =
        fcgi.send (fcgi.set_error_msg r.error_msg (fcgi.set_data r.response_data s.response)) in
      let c' : Connection Q (ResponseSender F) = record c {
        response_sender = some (record { response = spent });
      } in
      rw (locked, responder_send_fastcgi)
        (rw (send_with_error-first fcgi r.response_data r.error_msg s valid) (
          run_callbacks-Logged e callbacks fl wire sent c' fits
              (record { settled = h.settled; waits = h.waits }),
          run_callbacks-next_context e callbacks c',
        ))
