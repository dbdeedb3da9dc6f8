-- ===== src/Connection/Session/Stopped.antt =====
-- A connection whose write has failed, whatever happens to it after that (src/connection.cpp).
use asyncgi.Connection.Session.{
  process_requests, Event, reads, sends_late, completes, Session, react, ended, happens, CanHappen,
}
use asyncgi.Connection.Session.Promise.{Promise, promise}
use asyncgi.Connection.Session.Growth.{IsPrefix, IsPrefix-trans, promise-IsPrefix}
use asyncgi.Connection.Session.Stalled.{
  Stuck, close-Stuck, event-Stuck, on_bytes_written-Stuck, send-Stuck, read-Stuck,
}
use asyncgi.Connection.Session.Faults.{
  Incident, goes_well, write_fails, read_fails, occurs, CanOccur, promise_of,
}
use asyncgi.Connection.Defs.{Connection, fresh, on_read, on_write, close, issue, on_bytes_written}
use asyncgi.Connection.Requests.{HttpResponse, responder_send_fastcgi}
use asyncgi.Response.Sender.{FcgiResponse, ResponseSender}
use asyncgi.Response.Processor.{RequestProcessor}
use asyncgi.Net.Outbox.{CloseErrors, event, size_mod}
use asyncgi.Events.{AsioError, socket_read_error}
use asyncgi.Common.{
  ℕ, ◌<◌, ◌≡◌, refl, ◌≢◌, ◌⊎◌, inl, inr, none, some, List, [], ◌∷◌, ◌++◌, append-nil, arith,
  Bool-cases, take, sum, sum-append,
}

empty_write :
    (fl xs ys : List ℕ) (n : ℕ) → fl ≡ xs ++ n ∷ ys → sum fl ≡ 0 → (n ≡ 0) × (sum (xs ++ ys) ≡ 0)
empty_write fl xs ys n at none_left =
    let sums : sum (xs ++ n ∷ ys) ≡ 0 = rw (← at) none_left in
    (omega (arith, sum-append xs (n ∷ ys)), omega (arith, sum-append xs (n ∷ ys), sum-append xs ys))

module _ {ℓ} {Q F H A : Type ℓ} (fcgi : FcgiResponse F) (http : HttpResponse H)
    (make_request : Q → A) (processor : RequestProcessor A H) where
  -- After a failed write, bytes stay counted, and the writes under way are empty.
  pub record Stopped (s : Session Q F) (p : Promise F) : Type 0 where
    pub bytes : ℕ
    pub busy : bytes ≢ 0
    pub small : bytes < size_mod
    pub counted : s.conn.outbox.bytes_to_write ≡ bytes
    pub empty_writes : sum s.in_flight ≡ 0
    pub prefix : IsPrefix s.wire p.stream

  react-Stopped :
      (c : Connection Q (ResponseSender F)) (t s : Session Q F) (p p' : Promise F)
      → (h : Stopped s p) → Stuck h.bytes c
      → sum t.in_flight ≡ 0
      → IsPrefix t.wire p'.stream
      → Stopped (react c t) p'
  react-Stopped c t s p p' h stuck none_left prefix = record {
    bytes = h.bytes;
    busy = h.busy;
    small = h.small;
    counted = stuck.counted;
    empty_writes = rw (stuck.no_writes, append-nil) none_left;
    prefix = prefix;
  }

  fresh-Stuck : (s : Session Q F) (p : Promise F) (h : Stopped s p) → Stuck h.bytes (fresh s.conn)
  fresh-Stuck s p h = record { counted = h.counted; no_writes = refl }

  pub on_read-fails :
      (e : CloseErrors) (error : AsioError) (c : Connection Q (ResponseSender F))
      → (on_read (λ d c. c) e (some error) [] c ≡ c)
        ⊎ (on_read (λ d c. c) e (some error) [] c
            ≡ close e (issue (event socket_read_error error.message) c))
  unfolding on_read
  on_read-fails e error c = elim (Bool-cases error.is_operation_aborted) [
    | inl aborted ↦ inl (ground arith)
    | inr failed ↦ inr (ground arith)
  ]

  on_read-Stuck :
      (e : CloseErrors) (error : AsioError) (b : ℕ) (c : Connection Q (ResponseSender F))
      → Stuck b c
      → Stuck b (on_read (λ d c. c) e (some error) [] c)
  on_read-Stuck e error b c h = elim (on_read-fails e error c) [
    | inl same ↦ rw same h
    | inr closed ↦ rw closed (close-Stuck e b _ (event-Stuck _ _ b c h))
  ]

  happens-Stopped :
      (ev : Event Q F) (s : Session Q F) (p : Promise F)
      → CanHappen fcgi http make_request processor ev s
      → Stopped s p
      → Stopped
          (happens fcgi http make_request processor ev s)
          (promise fcgi http make_request processor ev p)
  unfolding happens promise
  happens-Stopped (reads e rs) s p valid h =
      react-Stopped
        (on_read (λ d. process_requests fcgi http make_request processor e rs) e none []
          (fresh s.conn))
        s s p _ h
        (read-Stuck fcgi http h.bytes h.busy make_request processor e rs (fresh s.conn) valid
          (fresh-Stuck s p h))
        h.empty_writes
        (IsPrefix-trans h.prefix (promise-IsPrefix fcgi http make_request processor (reads e rs) p))
  happens-Stopped (sends_late e id r) s p can h =
      react-Stopped (responder_send_fastcgi fcgi http e id r (fresh s.conn)) s s p _ h
        (send-Stuck fcgi http h.bytes h.busy e id r (fresh s.conn) (fresh-Stuck s p h))
        h.empty_writes
        (IsPrefix-trans h.prefix
          (promise-IsPrefix fcgi http make_request processor (sends_late e id r) p))
  happens-Stopped (completes e xs n ys) s p (at, possible) h =
      let sums : (n ≡ 0) × (sum (xs ++ ys) ≡ 0) =
        empty_write s.in_flight xs ys n at h.empty_writes in
      react-Stopped (on_bytes_written e n (fresh s.conn))
        (ended xs ys (take n s.conn.outbox.write_buffer) s) s p _ h
        (on_bytes_written-Stuck e n h.bytes (fresh s.conn) h.busy h.small sums.0
          (fresh-Stuck s p h))
        sums.1 (rw (sums.0, append-nil) h.prefix)

  pub occurs-Stopped :
      (i : Incident Q F) (s : Session Q F) (p : Promise F)
      → CanOccur fcgi http make_request processor i s
      → Stopped s p
      → Stopped
          (occurs fcgi http make_request processor i s)
          (promise_of fcgi http make_request processor i p)
  unfolding occurs on_write
  occurs-Stopped (goes_well ev) s p can h = happens-Stopped ev s p can h
  occurs-Stopped (write_fails e error xs n ys k) s p (at, part) h =
      let sums : (n ≡ 0) × (sum (xs ++ ys) ≡ 0) =
        empty_write s.in_flight xs ys n at h.empty_writes in
      let none_written : k ≡ 0 = omega (arith, sums.0, part) in
      react-Stopped (on_write e (some error) k (fresh s.conn))
        (ended xs ys (take k s.conn.outbox.write_buffer) s) s p p h
        (close-Stuck e h.bytes _ (event-Stuck _ _ h.bytes (fresh s.conn) (fresh-Stuck s p h)))
        sums.1 (rw (none_written, append-nil) h.prefix)
  occurs-Stopped (read_fails e error) s p can h =
      react-Stopped (on_read (λ d c. c) e (some error) [] (fresh s.conn)) s s p p h
        (on_read-Stuck e error h.bytes (fresh s.conn) (fresh-Stuck s p h)) h.empty_writes h.prefix
