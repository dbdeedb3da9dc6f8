-- ===== src/Connection/Session/Safety.antt =====
-- What the peer gets of a connection whose reads and writes may fail (src/connection.cpp).
use asyncgi.Connection.Session.Stopped.{Stopped, occurs-Stopped}
use asyncgi.Connection.Session.{Session, accepted}
use asyncgi.Connection.Session.Promise.{Promise, no_requests}
use asyncgi.Connection.Session.Growth.{
  IsPrefix, IsPrefix-refl, IsPrefix-trans, IsPrefix-length, promise-IsPrefix,
}
use asyncgi.Connection.Session.Faults.{
  Incident, goes_well, write_fails, read_fails, occurs, CanOccur, all_occur, AllCanOccur,
  promise_of, promises_of,
}
use asyncgi.Connection.Session.Refinement.{Kept, react-Kept, happens-Kept, accepted-Kept}
use asyncgi.Connection.Defs.{fresh, on_read, on_write}
use asyncgi.Connection.Requests.{HttpResponse}
use asyncgi.Response.Sender.{FcgiResponse}
use asyncgi.Response.Processor.{RequestProcessor}
use asyncgi.Net.Outbox.{size_mod}
use asyncgi.Net.Link.Invariant.{unsent_bytes}
use asyncgi.Common.{
  ◌<◌, ◌≡◌, ◌⊎◌, inl, inr, some, List, [], ◌∷◌, ◌++◌, append-nil, arith, ◌==◌, Bool-cases, length,
}
use asyncgi.Connection.Session.Failing.{read_fails-Kept, write_fails-Kept, write_fails-Stopped}

module _ {ℓ} {Q F H A : Type ℓ} (fcgi : FcgiResponse F) (http : HttpResponse H)
    (make_request : Q → A) (processor : RequestProcessor A H) where
  abbrev Served : Session Q F → Promise F → Type ℓ
  Served s p =
      Kept fcgi http make_request processor s p ⊎ Stopped fcgi http make_request processor s p

  occurs-Kept :
      (i : Incident Q F) (s : Session Q F) (p : Promise F)
      → CanOccur fcgi http make_request processor i s
      → length (promise_of fcgi http make_request processor i p).stream < size_mod
      → Kept fcgi http make_request processor s p
      → Served
          (occurs fcgi http make_request processor i s)
          (promise_of fcgi http make_request processor i p)
  unfolding occurs
  occurs-Kept (goes_well ev) s p can fits k =
      inl (happens-Kept fcgi http make_request processor ev s p can fits k)
  occurs-Kept (read_fails e error) s p can fits k = inl (
      react-Kept fcgi http make_request processor
        (on_read (λ d c. c) e (some error) [] (fresh s.conn)) s p
        (read_fails-Kept fcgi http make_request processor e error s p k))
  occurs-Kept (write_fails e error xs n ys k) s p (at, part) fits kept =
      elim (Bool-cases (n == 0)) [
        | inr busy ↦ inr (
            write_fails-Stopped fcgi http make_request processor e error xs ys n k s p at part
              (λ idle. absurd (ground arith)) kept)
        | inl empty ↦
            let none_written : k ≡ 0 = ground arith in
            let is_empty_write : n ≡ 0 = ground arith in
            rw (none_written, append-nil)
              (inl (
                react-Kept fcgi http make_request processor
                  (on_write e (some error) 0 (fresh s.conn)) (record s { in_flight = xs ++ ys }) p
                  (write_fails-Kept fcgi http make_request processor e error xs ys s p
                    (rw is_empty_write at at) kept)))
      ]

  promise_of-IsPrefix :
      (i : Incident Q F) (p : Promise F)
      → IsPrefix p.stream (promise_of fcgi http make_request processor i p).stream
  promise_of-IsPrefix (goes_well ev) p = promise-IsPrefix fcgi http make_request processor ev p
  promise_of-IsPrefix (write_fails e error xs n ys k) p = IsPrefix-refl p.stream
  promise_of-IsPrefix (read_fails e error) p = IsPrefix-refl p.stream

  promises_of-IsPrefix :
      (is : List (Incident Q F)) (p : Promise F)
      → IsPrefix p.stream (promises_of fcgi http make_request processor is p).stream
  promises_of-IsPrefix [] p = IsPrefix-refl p.stream
  promises_of-IsPrefix (i ∷ is) p =
      IsPrefix-trans (promise_of-IsPrefix i p)
        (promises_of-IsPrefix is (promise_of fcgi http make_request processor i p))

  all_occur-Served :
      (is : List (Incident Q F)) (s : Session Q F) (p : Promise F)
      → AllCanOccur fcgi http make_request processor is s
      → length (promises_of fcgi http make_request processor is p).stream < size_mod
      → Served s p
      → Served
          (all_occur fcgi http make_request processor is s)
          (promises_of fcgi http make_request processor is p)
  all_occur-Served [] s p can fits h = h
  all_occur-Served (i ∷ is) s p (can, rest) fits h =
      let p' = promise_of fcgi http make_request processor i p in
      let shorter = IsPrefix-length (promises_of-IsPrefix is p') in
      all_occur-Served is (occurs fcgi http make_request processor i s) p' rest fits (elim h [
        | inl kept ↦ occurs-Kept i s p can (omega (arith, shorter)) kept
        | inr stopped ↦ inr (occurs-Stopped fcgi http make_request processor i s p can stopped)
      ])

  Served-IsPrefix : (s : Session Q F) (p : Promise F) → Served s p → IsPrefix s.wire p.stream
  Served-IsPrefix s p (inl k) = record {
    rest = unsent_bytes s.conn.outbox;
    joined = k.logged.settled.conserved;
  }
  Served-IsPrefix s p (inr h) = h.prefix

  -- A connection that is just accepted, and that then has any requests with valid responses, sends of
  -- kept Responders, completed writes, failed reads and failed writes, in any order, while its answers
  -- together are below 2 ^ 64 bytes: what has reached the peer is a beginning of the promised bytes,
  -- also where a write failed with a part of it written and requests are answered after that.
  pub peer_gets_a_prefix :
      (is : List (Incident Q F))
      → AllCanOccur fcgi http make_request processor is accepted
      → length (promises_of fcgi http make_request processor is no_requests).stream < size_mod
      → IsPrefix
          (all_occur fcgi http make_request processor is accepted).wire
          (promises_of fcgi http make_request processor is no_requests).stream
  peer_gets_a_prefix is can fits = Served-IsPrefix _ _ (
      all_occur-Served is accepted no_requests can fits
        (inl (accepted-Kept fcgi http make_request processor)))
