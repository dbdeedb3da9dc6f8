-- ===== src/Connection/Session/Refinement.antt =====
-- A connection serves its requests as it promises (src/connection.cpp, src/response.cpp,
-- src/responsesender.cpp).
use asyncgi.Net.Link.Writes.{all_sent}
use asyncgi.Response.Processor.{RequestProcessor}
use asyncgi.Net.Outbox.{size_mod}
use asyncgi.Connection.Session.{
  process_requests, Event, reads, sends_late, completes, Session, accepted, react, ended, happens,
  CanHappen, all_happen, AllCanHappen,
}
use asyncgi.Response.Sender.{FcgiResponse, ResponseSender}
use asyncgi.Connection.Requests.{HttpResponse, responder_send_fastcgi, lock}
use asyncgi.Connection.Defs.{fresh, Connection, on_bytes_written, on_read}
use asyncgi.Connection.Session.Promise.{Promise, no_requests, promise, promises}
use asyncgi.Connection.Session.Keeps.{Keeps, frame-Keeps}
use asyncgi.Net.Link.Invariant.{unsent_bytes}
use asyncgi.Connection.Session.Growth.{IsPrefix-length, promises-IsPrefix}
use asyncgi.Common.{
  ◌<◌, ◌≡◌, refl, ◌⊎◌, inl, inr, none, List, [], ◌∷◌, ◌++◌, append-nil, arith, ◌==◌, Bool-cases,
  length, take, sum,
}
use asyncgi.Connection.Session.Handlers.{read-Keeps, late-Keeps, written-Keeps}

module _ {ℓ} {Q F H A : Type ℓ} (fcgi : FcgiResponse F) (http : HttpResponse H)
    (make_request : Q → A) (processor : RequestProcessor A H) where
  abbrev pub Kept : Session Q F → Promise F → Type ℓ
  Kept s p = Keeps fcgi http s.in_flight s.wire (fresh s.conn) p

  pub react-Kept :
      (c : Connection Q (ResponseSender F)) (s : Session Q F) (p : Promise F)
      → Keeps fcgi http s.in_flight s.wire c p
      → Kept (react c s) p
  react-Kept c s p k =
      frame-Keeps fcgi http _ _ _ _ c (fresh c) p (rw append-nil k.logged) refl refl refl k

  pub happens-Kept :
      (ev : Event Q F) (s : Session Q F) (p : Promise F)
      → CanHappen fcgi http make_request processor ev s
      → length (promise fcgi http make_request processor ev p).stream < size_mod
      → Kept s p
      → Kept
          (happens fcgi http make_request processor ev s)
          (promise fcgi http make_request processor ev p)
  unfolding happens promise
  happens-Kept (reads e rs) s p valid fits k =
      react-Kept
        (on_read (λ d. process_requests fcgi http make_request processor e rs) e none []
          (fresh s.conn))
        s _
        (read-Keeps fcgi http make_request processor e rs s.in_flight s.wire (fresh s.conn) p valid
          fits k)
  happens-Kept (sends_late e id r) s p unit fits k =
      react-Kept (responder_send_fastcgi fcgi http e id r (fresh s.conn)) s _ (
        late-Keeps fcgi http make_request processor e id r s.in_flight s.wire (fresh s.conn)
          p.unanswered p.next p.stream fits k)
  happens-Kept (completes e xs n ys) s p (at, possible) fits k =
      react-Kept (on_bytes_written e n (fresh s.conn))
        (ended xs ys (take n s.conn.outbox.write_buffer) s) p
        (written-Keeps fcgi http make_request processor e xs ys n s p at k)

  pub all_happen-Kept :
      (evs : List (Event Q F)) (s : Session Q F) (p : Promise F)
      → AllCanHappen fcgi http make_request processor evs s
      → length (promises fcgi http make_request processor evs p).stream < size_mod
      → Kept s p
      → Kept
          (all_happen fcgi http make_request processor evs s)
          (promises fcgi http make_request processor evs p)
  all_happen-Kept [] s p can fits k = k
  all_happen-Kept (ev ∷ evs) s p (can, rest) fits k =
      all_happen-Kept evs (happens fcgi http make_request processor ev s) _ rest fits (
        happens-Kept ev s p can
          (omega (
            arith,
            IsPrefix-length (
                promises-IsPrefix fcgi http make_request processor evs
                  (promise fcgi http make_request processor ev p)),
          ))
          k)

  pub accepted-Kept : Kept accepted no_requests
  unfolding lock
  accepted-Kept = record {
    logged = record {
      settled = record {
        counted = refl;
        one_write = tt;
        viewed = λ h. absurd (omega arith);
        small = omega arith;
        next_small = omega arith;
        conserved = refl;
      };
      waits = λ h. refl;
    };
    numbered = refl;
    can_answer = inl (λ id. refl);
  }

  -- A connection that is just accepted, whose writes all end without an error, and that then has
  -- any reads of requests with valid responses, sends of kept Responders and completed writes, in
  -- any order, while its answers together are below 2 ^ 64 bytes. What has reached the peer, then
  -- what is left of the write under way, then what waits in nextWriteBuffer_, is exactly the
  -- promised bytes: one answer for each request that was answered while it was the last one, in the
  -- order of the answers. When no byte is under way, the peer has all of them.
  pub serves_as_promised :
      (evs : List (Event Q F))
      → AllCanHappen fcgi http make_request processor evs accepted
      → length (promises fcgi http make_request processor evs no_requests).stream < size_mod
      → let s = all_happen fcgi http make_request processor evs accepted in
        let stream = (promises fcgi http make_request processor evs no_requests).stream in
        (s.wire ++ unsent_bytes s.conn.outbox ≡ stream)
        × ((0 < sum s.in_flight) ⊎ (s.wire ≡ stream))
  serves_as_promised evs can fits =
      let s = all_happen fcgi http make_request processor evs accepted in
      let stream = (promises fcgi http make_request processor evs no_requests).stream in
      let h = (all_happen-Kept evs accepted no_requests can fits accepted-Kept).logged in
      (
        h.settled.conserved,
        elim (Bool-cases (s.conn.outbox.bytes_to_write == 0)) [
          | inl idle ↦ inr (
              all_sent s.conn.outbox _ s.wire stream h.settled (ground arith)
                (h.waits (ground arith)))
          | inr busy ↦ inl ground (arith, h.settled.counted, append-nil s.in_flight)
        ],
      )
