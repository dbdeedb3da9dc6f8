-- ===== src/Connection/Session/Failing.antt =====
-- The failure of a read, and of a write, of a connection that has kept its promise (src/connection.cpp).
use asyncgi.Connection.Session.Stopped.{Stopped, on_read-fails}
use asyncgi.Connection.Session.{Session}
use asyncgi.Connection.Session.Promise.{Promise}
use asyncgi.Connection.Session.Growth.{IsPrefix, IsPrefix-trans, append-IsPrefix, take-IsPrefix}
use asyncgi.Connection.Session.Stalled.{Stuck, close-Stuck, event-Stuck}
use asyncgi.Connection.Session.Faults.{write_fails, occurs}
use asyncgi.Connection.Session.Log.{close-log, issue-log}
use asyncgi.Connection.Session.Keeps.{frame-Keeps, Keeps}
use asyncgi.Connection.Session.Refinement.{Kept}
use asyncgi.Connection.Defs.{Connection, fresh, on_read, on_write, close, issue}
use asyncgi.Connection.Requests.{HttpResponse}
use asyncgi.Response.Sender.{FcgiResponse, ResponseSender}
use asyncgi.Response.Processor.{RequestProcessor}
use asyncgi.Net.Outbox.{CloseErrors, event, writes_of}
use asyncgi.Net.Link.Invariant.{Inv, Settled, flag-Settled, empty_write-Settled, take_all}
use asyncgi.Net.Link.Writes.{one_write}
use asyncgi.Events.{AsioError, ErrorEvent, socket_write_error}
use asyncgi.Common.{
  ℕ, ◌≤◌, ◌≡◌, refl, sym, subst, ◌∙◌, ◌≢◌, inl, inr, false, some, List, [], ◌∷◌, ◌++◌, append-nil,
  arith, Bytes, take,
}

module _ {ℓ} {Q F H A : Type ℓ} (fcgi : FcgiResponse F) (http : HttpResponse H)
    (make_request : Q → A) (processor : RequestProcessor A H) where
  -- The failure of a read, or of an empty write
  close-Keeps :
      (e : CloseErrors) (x : ErrorEvent) (m : Bytes) (fl fl' : List ℕ) (wire wire' : Bytes)
      (c : Connection Q (ResponseSender F)) (p : Promise F)
      → Settled c.outbox (fl' ++ writes_of c.calls) wire' p.stream
      → Keeps fcgi http fl wire c p
      → Keeps fcgi http fl' wire' (close e (issue (event x m) c)) p
  unfolding close
  close-Keeps e x m fl fl' wire wire' c p settled k =
      let c' = close e (issue (event x m) c) in
      let same_outbox : c'.outbox ≡ record c.outbox { disconnect_requested = false } =
        ground arith in
      let same_writes : writes_of c'.calls ≡ writes_of c.calls =
        close-log e (issue (event x m) c) ∙ issue-log (event x m) c refl in
      frame-Keeps fcgi http fl fl' wire wire' c c' p
        (rw (same_outbox, same_writes)
          (record {
            settled = flag-Settled c.outbox _ wire' p.stream false settled;
            waits = k.logged.waits;
          }))
        (ground arith) (ground arith) (ground arith) k

  pub read_fails-Kept :
      (e : CloseErrors) (error : AsioError) (s : Session Q F) (p : Promise F)
      → Kept fcgi http make_request processor s p
      → Keeps fcgi http s.in_flight s.wire (on_read (λ d c. c) e (some error) [] (fresh s.conn)) p
  read_fails-Kept e error s p k =
      elim (on_read-fails fcgi http make_request processor e error (fresh s.conn)) [
        | inl same ↦ rw same k
        | inr closed ↦ rw closed (
            close-Keeps e _ _ s.in_flight s.in_flight s.wire s.wire (fresh s.conn) p
              k.logged.settled k)
      ]

  pub write_fails-Kept :
      (e : CloseErrors) (error : AsioError) (xs ys : List ℕ) (s : Session Q F) (p : Promise F)
      → s.in_flight ≡ xs ++ 0 ∷ ys
      → Kept fcgi http make_request processor s p
      → Keeps fcgi http (xs ++ ys) s.wire (on_write e (some error) 0 (fresh s.conn)) p
  unfolding on_write
  write_fails-Kept e error xs ys s p at k =
      close-Keeps e _ _ s.in_flight (xs ++ ys) s.wire s.wire (fresh s.conn) p
        (rw append-nil (
          rw append-nil at (
            empty_write-Settled s.conn.outbox xs ys 0 s.conn.outbox.bytes_to_write s.wire p.stream
              (subst (λ (ns : List ℕ). Settled s.conn.outbox ns s.wire p.stream)
                (append-nil s.in_flight ∙ at) k.logged.settled)
              refl refl)))
        k

  pub write_fails-Stopped :
      (e : CloseErrors) (error : AsioError) (xs ys : List ℕ) (n k : ℕ) (s : Session Q F)
      (p : Promise F)
      → s.in_flight ≡ xs ++ n ∷ ys
      → k ≤ n
      → n ≢ 0
      → Kept fcgi http make_request processor s p
      → Stopped fcgi http make_request processor
          (occurs fcgi http make_request processor (write_fails e error xs n ys k) s)
          p
  unfolding occurs on_write
  write_fails-Stopped e error xs ys n k s p at part busy kept =
      let h =
        subst (λ (ns : List ℕ). Inv s.conn.outbox ns s.wire p.stream) (append-nil s.in_flight ∙ at)
          kept.logged in
      let (whole, alone, viewed) = one_write s.conn.outbox xs ys n s.wire p.stream h busy in
      let stuck : Stuck s.conn.outbox.bytes_to_write (fresh s.conn) = record {
        counted = refl;
        no_writes = refl;
      } in
      let after =
        close-Stuck e s.conn.outbox.bytes_to_write
          (issue (event socket_write_error error.message) (fresh s.conn))
          (event-Stuck socket_write_error error.message s.conn.outbox.bytes_to_write (fresh s.conn)
            stuck) in
      let rest : IsPrefix s.conn.outbox.write_buffer
          (s.conn.outbox.write_buffer ++ s.conn.outbox.next_write_buffer) =
        record { rest = s.conn.outbox.next_write_buffer; joined = refl } in
      let all : s.wire ++ (s.conn.outbox.write_buffer ++ s.conn.outbox.next_write_buffer)
          ≡ p.stream =
        rw (take_all s.conn.outbox.bytes_to_write s.conn.outbox.write_buffer (sym whole ∙ viewed))
          at h.settled.conserved in
      record {
        bytes = s.conn.outbox.bytes_to_write;
        busy = λ idle. busy (whole ∙ idle);
        small = h.settled.small;
        counted = after.counted;
        empty_writes = rw (after.no_writes, append-nil) alone;
        prefix = subst (IsPrefix (s.wire ++ take k s.conn.outbox.write_buffer)) all (
            append-IsPrefix s.wire
              (IsPrefix-trans (take-IsPrefix k s.conn.outbox.write_buffer) rest));
      }
