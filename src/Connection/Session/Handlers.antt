-- ===== src/Connection/Session/Handlers.antt =====
-- Each handler of a connection keeps its promise (src/connection.cpp, src/response.cpp).
use asyncgi.Net.Transport.{Reaction}
use asyncgi.Connection.Responders.{lock_stale}
use asyncgi.Response.Processor.{RequestProcessor, FastcgiResponse}
use asyncgi.Connection.Answers.{process_request-answer, answer, final_answer, expected}
use asyncgi.Net.Outbox.{CloseErrors, size_mod, async_read_some}
use asyncgi.Connection.Session.{process_requests, AllValid, sends_late, Session}
use asyncgi.Response.Sender.{FcgiResponse, ResponseSender}
use asyncgi.Connection.Requests.{
  HttpResponse, responder_send_fastcgi, process_request, begin_request,
}
use asyncgi.Connection.Defs.{fresh, Connection, on_bytes_written, on_read, issue}
use asyncgi.Connection.Session.Promise.{Promise, asked, promise, asked_all}
use asyncgi.Connection.Transport.{on_bytes_written-complete}
use asyncgi.Connection.Session.Keeps.{
  stale-Keeps, Keeps, begin-Keeps, send-Keeps, shut-Keeps, event-Keeps, frame-Keeps,
}
use asyncgi.Net.Link.Invariant.{InvR, complete-Inv, Inv}
use asyncgi.Connection.Session.Growth.{IsPrefix-length, asked_all-IsPrefix}
use asyncgi.Connection.Session.Log.{issue-log}
use asyncgi.Common.{
  ℕ, ◌+◌, ◌<◌, ◌≡◌, refl, sym, subst, ◌∙◌, inl, inr, true, Option, none, some, List, [], ◌∷◌, ◌++◌,
  append-nil, arith, ◌==◌, Bool-cases, Bytes, length, take,
}

module _ {ℓ} {Q F H A : Type ℓ} (fcgi : FcgiResponse F) (http : HttpResponse H)
    (make_request : Q → A) (processor : RequestProcessor A H) where
  answer-Keeps :
      (e : CloseErrors) (f : F) (r : Option FastcgiResponse) (fl : List ℕ) (wire : Bytes)
      (c : Connection Q (ResponseSender F)) (p : Promise F) (id : ℕ)
      → id ≡ p.next
      → length (asked fcgi r f p).stream < size_mod
      → Keeps fcgi http fl wire c (record p { unanswered = some (p.next, f); next = p.next + 1 })
      → Keeps fcgi http fl wire (answer fcgi http e id r c) (asked fcgi r f p)
  answer-Keeps e f none fl wire c p id is fits k = k
  answer-Keeps e f (some r) fl wire c p id is fits k =
      send-Keeps fcgi http e id r f fl wire c
        (record p { unanswered = some (p.next, f); next = p.next + 1 }) fits (rw is refl) k

  process_request-Keeps :
      (e : CloseErrors) (q : Q) (f : F) (fl : List ℕ) (wire : Bytes)
      (c : Connection Q (ResponseSender F)) (p : Promise F)
      → let r = final_answer http (expected http processor (make_request q)) in
        fcgi.is_valid f ≡ true
        → length (asked fcgi r f p).stream < size_mod
        → Keeps fcgi http fl wire c p
        → Keeps fcgi http fl wire
            (process_request fcgi http make_request processor e q f c)
            (asked fcgi r f p)
  process_request-Keeps e q f fl wire c p valid fits k =
      let (r, ending) = expected http processor (make_request q) in
      rw (process_request-answer fcgi http make_request processor e q f c valid) (
        event-Keeps fcgi http ending fl wire
          (answer fcgi http e c.next_context (final_answer http (r, ending))
            (begin_request fcgi http q f c))
          (asked fcgi (final_answer http (r, ending)) f p)
          (answer-Keeps e f (final_answer http (r, ending)) fl wire (begin_request fcgi http q f c)
            p c.next_context k.numbered fits (begin-Keeps fcgi http q f fl wire c p valid k)))

  process_requests-Keeps :
      (e : CloseErrors) (rs : List (Q × F)) (fl : List ℕ) (wire : Bytes)
      (c : Connection Q (ResponseSender F)) (p : Promise F)
      → AllValid fcgi http make_request processor rs
      → length (asked_all fcgi http make_request processor rs p).stream < size_mod
      → Keeps fcgi http fl wire c p
      → Keeps fcgi http fl wire
          (process_requests fcgi http make_request processor e rs c)
          (asked_all fcgi http make_request processor rs p)
  process_requests-Keeps e [] fl wire c p valid fits k = k
  process_requests-Keeps e ((q, f) ∷ rest) fl wire c p (valid, others) fits k =
      let p' = asked fcgi (final_answer http (expected http processor (make_request q))) f p in
      let shorter = IsPrefix-length (asked_all-IsPrefix fcgi http make_request processor rest p') in
      process_requests-Keeps e rest fl wire
        (process_request fcgi http make_request processor e q f c) p' others fits
        (process_request-Keeps e q f fl wire c p valid (omega (arith, shorter)) k)

  pub read-Keeps :
      (e : CloseErrors) (rs : List (Q × F)) (fl : List ℕ) (wire : Bytes)
      (c : Connection Q (ResponseSender F)) (p : Promise F)
      → AllValid fcgi http make_request processor rs
      → length (asked_all fcgi http make_request processor rs p).stream < size_mod
      → Keeps fcgi http fl wire c p
      → Keeps fcgi http fl wire
          (on_read (λ d. process_requests fcgi http make_request processor e rs) e none [] c)
          (asked_all fcgi http make_request processor rs p)
  unfolding on_read
  read-Keeps e rs fl wire c p valid fits k =
      let c' = process_requests fcgi http make_request processor e rs c in
      let k' = process_requests-Keeps e rs fl wire c p valid fits k in
      frame-Keeps fcgi http fl fl wire wire c' (issue async_read_some c') _
        (rw (issue-log async_read_some c' refl) k'.logged) refl refl refl k'

  pub late-Keeps :
      (e : CloseErrors) (id : ℕ) (r : FastcgiResponse) (fl : List ℕ) (wire : Bytes)
      (c : Connection Q (ResponseSender F)) (u : Option (ℕ × F)) (n : ℕ) (stream : Bytes)
      → let p : Promise F = record { unanswered = u; next = n; stream = stream } in
        length (promise fcgi http make_request processor (sends_late e id r) p).stream < size_mod
        → Keeps fcgi http fl wire c p
        → Keeps fcgi http fl wire
            (responder_send_fastcgi fcgi http e id r c)
            (promise fcgi http make_request processor (sends_late e id r) p)
  unfolding promise
  late-Keeps e id r fl wire c none n stream fits k =
      rw (shut-Keeps fcgi http e id r c k.can_answer) k
  late-Keeps e id r fl wire c (some (last, f)) n stream fits k = elim (Bool-cases (last == id)) [
    | inl same ↦
        let is : last ≡ id = ground arith in
        rw same (send-Keeps fcgi http e id r f fl wire c _ (rw same at fits) (rw is refl) k)
    | inr other ↦
        rw
          (
            other,
            stale-Keeps fcgi http e id r c
                (lock_stale fcgi http id last c k.can_answer.0 (λ is. absurd (ground arith))),
          )
          k
  ]

  written-fields :
      (e : CloseErrors) (n : ℕ) (c : Connection Q (ResponseSender F))
      → ((on_bytes_written e n c).next_context ≡ c.next_context)
        × ((on_bytes_written e n c).response_context ≡ c.response_context)
        × ((on_bytes_written e n c).response_sender ≡ c.response_sender)
  unfolding on_bytes_written
  written-fields e n c = (ground arith, ground arith, ground arith)

  pub written-Keeps :
      (e : CloseErrors) (xs ys : List ℕ) (n : ℕ) (s : Session Q F) (p : Promise F)
      → s.in_flight ≡ xs ++ n ∷ ys
      → Keeps fcgi http s.in_flight s.wire (fresh s.conn) p
      → Keeps fcgi http
          (xs ++ ys)
          (s.wire ++ take n s.conn.outbox.write_buffer)
          (on_bytes_written e n (fresh s.conn))
          p
  written-Keeps e xs ys n s p at k =
      let (same_number, same_context, same_sender) = written-fields e n (fresh s.conn) in
      frame-Keeps fcgi http s.in_flight (xs ++ ys) s.wire
        (s.wire ++ take n s.conn.outbox.write_buffer) (fresh s.conn)
        (on_bytes_written e n (fresh s.conn)) p
        (subst
          (λ (x : Reaction).
            InvR x (xs ++ ys) (s.wire ++ take n s.conn.outbox.write_buffer) p.stream)
          (sym (on_bytes_written-complete e n s.conn))
          (complete-Inv s.conn.outbox xs ys n s.wire p.stream (
            subst (λ (ns : List ℕ). Inv s.conn.outbox ns s.wire p.stream)
              (append-nil s.in_flight ∙ at) k.logged)))
        same_number same_context same_sender k
