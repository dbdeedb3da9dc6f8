-- ===== src/Connection/Session/Liveness.antt =====
-- A connection can finish while its socket is open (src/connection.cpp).
use asyncgi.Connection.Session.{
  Event, reads, sends_late, completes, Session, accepted, react, ended, happens, CanHappen,
  all_happen, AllCanHappen, writes_before_close,
}
use asyncgi.Connection.Session.Promise.{Promise, no_requests, promise, promises}
use asyncgi.Connection.Session.Refinement.{Kept, happens-Kept, all_happen-Kept, accepted-Kept}
use asyncgi.Connection.Transport.{on_bytes_written-complete}
use asyncgi.Connection.Defs.{Connection, fresh, on_bytes_written}
use asyncgi.Connection.Requests.{HttpResponse}
use asyncgi.Response.Sender.{FcgiResponse, ResponseSender}
use asyncgi.Response.Processor.{RequestProcessor}
use asyncgi.Net.Outbox.{
  Call, CloseErrors, Outbox, size_mod, writes_of, closes, async_write, async_read_some,
  async_connect, shutdown_socket, close_socket, event,
}
use asyncgi.Net.Transport.{Reaction, complete}
use asyncgi.Net.Link.Invariant.{Inv}
use asyncgi.Net.Link.Writes.{all_sent}
use asyncgi.Net.Link.Drain.{writes_left, writes_left-le, complete-writes_left}
use asyncgi.Common.{
  ℕ, zero, suc, ◌≤◌, ◌<◌, ◌≡◌, refl, sym, ap, subst, ◌∙◌, ◌≢◌, ◌⊎◌, inl, inr, true, false, List, [],
  ◌∷◌, ◌++◌, append-nil, arith, ◌==◌, Bool-cases, Bytes, length, length-append, sum, All,
}

-- A write with bytes, among those under way
abbrev HasBytes : List ℕ → Type 0
HasBytes fl = (xs : List ℕ) × (ys : List ℕ) × (n : ℕ) × (fl ≡ xs ++ n ∷ ys) × (n ≢ 0)

busy_write : (fl : List ℕ) → sum fl ≢ 0 → HasBytes fl
busy_write [] h = absurd (h refl)
busy_write (n ∷ fl) h = elim (Bool-cases (n == 0)) [
  | inr some_bytes ↦ ([], fl, n, refl, λ idle. absurd (ground arith))
  | inl empty ↦
      let (xs, ys, k, at, busy) = busy_write fl (λ none_left. h (ground arith)) in
      (n ∷ xs, ys, k, ap (λ ns. n ∷ ns) at, busy)
]

-- Only writes complete.
abbrev pub IsCompletion {ℓ} : {Q F : Type ℓ} → Event Q F → Type 0
IsCompletion (reads e rs) = ⊥
IsCompletion (sends_late e id r) = ⊥
IsCompletion (completes e xs n ys) = Unit

before_close : (cs : List Call) → closes cs ≡ false → writes_before_close cs ≡ writes_of cs
before_close [] h = refl
before_close (async_write n ∷ cs) h = ap (λ ns. n ∷ ns) (before_close cs h)
before_close (async_read_some ∷ cs) h = before_close cs h
before_close (async_connect ∷ cs) h = before_close cs h
before_close (shutdown_socket ∷ cs) h = before_close cs h
before_close (close_socket ∷ cs) h = let no : true ≡ false = h in ground arith
before_close (event e m ∷ cs) h = before_close cs h

-- A completion closes the socket only where no byte is under way.
complete-idle :
    (n : ℕ) (o : Outbox) → (complete n o).closed ≡ true → (complete n o).outbox.bytes_to_write ≡ 0
complete-idle n o h = ground arith

module _ {ℓ} {Q F : Type ℓ} where
  -- While the socket is open, each write under way was started while it was.
  pub record AllAlive (s : Session Q F) : Type 0 where
    pub counted : s.is_open ≡ true → s.alive ≡ length s.in_flight

  react-AllAlive :
      (c : Connection Q (ResponseSender F)) (s : Session Q F) → AllAlive s → AllAlive (react c s)
  react-AllAlive c s h = record {
    counted = λ still.
        let was : s.is_open ≡ true = ground arith in
        let keeps : closes c.calls ≡ false = ground arith in
        rw was (
          omega (
            arith,
            h.counted was,
            ap (λ ns. length ns) (before_close c.calls keeps),
            length-append s.in_flight (writes_of c.calls),
          ));
  }

  ended-AllAlive :
      (xs ys : List ℕ) (n : ℕ) (d : Bytes) (s : Session Q F)
      → s.in_flight ≡ xs ++ n ∷ ys
      → AllAlive s
      → AllAlive (ended xs ys d s)
  ended-AllAlive xs ys n d s at h = record {
    counted = λ still.
        let all = h.counted still in
        let lengths = ap (λ ns. length ns) at in
        let whole = length-append xs (n ∷ ys) in
        let rest = length-append xs ys in ground (arith, all, lengths, whole, rest);
  }

module _ {ℓ} {Q F H A : Type ℓ} (fcgi : FcgiResponse F) (http : HttpResponse H)
    (make_request : Q → A) (processor : RequestProcessor A H) (e : CloseErrors) where
  -- A few completions after which the peer has all of it.
  abbrev pub CanFinish : ℕ → Session Q F → Bytes → Type ℓ
  CanFinish k s stream =
      (more : List (Event Q F)) × (length more ≤ k)
      × All IsCompletion more
      × AllCanHappen fcgi http make_request processor more s
      × ((all_happen fcgi http make_request processor more s).wire ≡ stream)

  idle-finish :
      (k : ℕ) (s : Session Q F) (p : Promise F)
      → Kept fcgi http make_request processor s p
      → s.conn.outbox.bytes_to_write ≡ 0
      → CanFinish k s p.stream
  idle-finish k s p kept idle =
      let h = kept.logged in
      (
        [],
        omega arith,
        tt,
        tt,
        all_sent s.conn.outbox _ s.wire p.stream h.settled idle (h.waits idle),
      )

  completes-left :
      (s : Session Q F) (p : Promise F) (xs ys : List ℕ) (n : ℕ)
      → Kept fcgi http make_request processor s p
      → s.in_flight ≡ xs ++ n ∷ ys
      → n ≢ 0
      → writes_left (happens fcgi http make_request processor (completes e xs n ys) s).conn.outbox
        < writes_left s.conn.outbox
  unfolding happens
  completes-left s p xs ys n kept at busy =
      let h =
        subst (λ (ns : List ℕ). Inv s.conn.outbox ns s.wire p.stream) (append-nil s.in_flight ∙ at)
          kept.logged in
      let same =
        ap (λ (x : Reaction). writes_left x.outbox) (on_bytes_written-complete e n s.conn) in
      omega (arith, complete-writes_left s.conn.outbox xs ys n s.wire p.stream h busy, same)

  happens-AllAlive :
      (ev : Event Q F) (s : Session Q F)
      → CanHappen fcgi http make_request processor ev s
      → AllAlive s
      → AllAlive (happens fcgi http make_request processor ev s)
  unfolding happens
  happens-AllAlive (reads e rs) s can h = react-AllAlive _ s h
  happens-AllAlive (sends_late e id r) s can h = react-AllAlive _ s h
  happens-AllAlive (completes e xs n ys) s (at, possible) h =
      react-AllAlive _ _ (ended-AllAlive xs ys n _ s at h)

  all_happen-AllAlive :
      (evs : List (Event Q F)) (s : Session Q F)
      → AllCanHappen fcgi http make_request processor evs s
      → AllAlive s
      → AllAlive (all_happen fcgi http make_request processor evs s)
  all_happen-AllAlive [] s can h = h
  all_happen-AllAlive (ev ∷ evs) s (can, rest) h =
      all_happen-AllAlive evs (happens fcgi http make_request processor ev s) rest
        (happens-AllAlive ev s can h)

  -- The socket is open, or nothing is left to be written.
  abbrev Goes : Session Q F → Type 0
  Goes s = (s.is_open ≡ true) ⊎ (s.conn.outbox.bytes_to_write ≡ 0)

  completes-Goes :
      (s : Session Q F) (xs ys : List ℕ) (n : ℕ)
      → s.is_open ≡ true
      → Goes (happens fcgi http make_request processor (completes e xs n ys) s)
  unfolding happens
  completes-Goes s xs ys n is_open =
      let c = on_bytes_written e n (fresh s.conn) in
      let same = on_bytes_written-complete e n s.conn in
      elim (Bool-cases (closes c.calls)) [
        | inl closed ↦ inr (
            ap (λ (x : Reaction). x.outbox.bytes_to_write) same
            ∙ complete-idle n s.conn.outbox (sym (ap (λ (x : Reaction). x.closed) same) ∙ closed))
        | inr stays ↦ inl (rw (is_open, stays) refl)
      ]

  finish :
      (k : ℕ) (s : Session Q F) (p : Promise F)
      → length p.stream < size_mod
      → Kept fcgi http make_request processor s p
      → AllAlive s
      → Goes s
      → writes_left s.conn.outbox ≤ k
      → CanFinish k s p.stream
  unfolding promise
  finish zero s p fits kept alive goes left = idle-finish zero s p kept (ground arith)
  finish (suc k) s p fits kept alive (inr idle) left = idle-finish (suc k) s p kept idle
  finish (suc k) s p fits kept alive (inl is_open) left =
      elim (Bool-cases (s.conn.outbox.bytes_to_write == 0)) [
        | inl idle ↦ idle-finish (suc k) s p kept (ground arith)
        | inr busy ↦
            let (xs, ys, n, at, some_bytes) = busy_write s.in_flight (λ none_left.
              absurd (ground (arith, kept.logged.settled.counted, append-nil s.in_flight))) in
            let ev : Event Q F = completes e xs n ys in
            let down = completes-left s p xs ys n kept at some_bytes in
            let can : CanHappen fcgi http make_request processor ev s = (
              at,
              inr (
                  omega (
                    arith,
                    alive.counted is_open,
                    ap (λ ns. length ns) at,
                    length-append xs (n ∷ ys),
                  )),
            ) in
            let (more, few, completions, others, done) =
              finish k (happens fcgi http make_request processor ev s) p fits
                (happens-Kept fcgi http make_request processor ev s p can fits kept)
                (happens-AllAlive ev s can alive) (completes-Goes s xs ys n is_open)
                (omega (arith, down, left)) in
            (ev ∷ more, omega (arith, few), (tt, completions), (can, others), done)
      ]

  -- A connection that is just accepted, whose writes so far all ended without an error, that has had
  -- any reads of requests with valid responses, sends of kept Responders and completed writes, in any
  -- order, with its answers together below 2 ^ 64 bytes, and whose socket is open: there are at most two
  -- completions of writes, possible one after the other (each write is empty, or was started while the
  -- socket was open), after which the peer has all the promised bytes.
  pub can_finish :
      (evs : List (Event Q F))
      → AllCanHappen fcgi http make_request processor evs accepted
      → length (promises fcgi http make_request processor evs no_requests).stream < size_mod
      → (all_happen fcgi http make_request processor evs accepted).is_open ≡ true
      → CanFinish 2
          (all_happen fcgi http make_request processor evs accepted)
          (promises fcgi http make_request processor evs no_requests).stream
  can_finish evs can fits is_open =
      let s = all_happen fcgi http make_request processor evs accepted in
      finish 2 s (promises fcgi http make_request processor evs no_requests) fits
        (all_happen-Kept fcgi http make_request processor evs accepted no_requests can fits
          (accepted-Kept fcgi http make_request processor))
        (all_happen-AllAlive evs accepted can (record { counted = λ still. refl })) (inl is_open)
        (writes_left-le s.conn.outbox)
