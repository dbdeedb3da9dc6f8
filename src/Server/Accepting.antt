-- ===== src/Server/Accepting.antt =====
-- The accept loop of a listener: what it does in the long run, and after an error.
use asyncgi.Events.{AsioError, connection_error}
use asyncgi.IoService.Defs.{add_io, IoService, next_io}
use asyncgi.Common.{
  ℕ, zero, suc, ◌+◌, ◌≡◌, refl, ap, ◌∙◌, Option, none, some, List, [], ◌∷◌, ◌++◌, append-nil,
  append_assoc, arith,
}
use native.Mathlib.Nat.{add-zero}
use asyncgi.Server.Listener.{
  Listener, ListenCall, make_connection, async_accept, process_connection, report, accept,
  accept_each, make_connection_listener,
}

-- The connections that read requests, and the connections made with their io_contexts.
abbrev pub processed : List ListenCall → List ℕ
processed [] = []
processed (process_connection c ∷ rest) = c ∷ processed rest
processed (make_connection c io ∷ rest) = processed rest
processed (async_accept c ∷ rest) = processed rest
processed (report e m ∷ rest) = processed rest

abbrev pub made : List ListenCall → List (ℕ × Option ℕ)
made [] = []
made (make_connection c io ∷ rest) = (c, io) ∷ made rest
made (process_connection c ∷ rest) = made rest
made (async_accept c ∷ rest) = made rest
made (report e m ∷ rest) = made rest

processed-append : (xs ys : List ListenCall) → processed (xs ++ ys) ≡ processed xs ++ processed ys
processed-append [] ys = refl
processed-append (process_connection c ∷ xs) ys = ap (◌∷◌ c) (processed-append xs ys)
processed-append (make_connection c io ∷ xs) ys = processed-append xs ys
processed-append (async_accept c ∷ xs) ys = processed-append xs ys
processed-append (report e m ∷ xs) ys = processed-append xs ys

made-append : (xs ys : List ListenCall) → made (xs ++ ys) ≡ made xs ++ made ys
made-append [] ys = refl
made-append (make_connection c io ∷ xs) ys = ap (◌∷◌ (c, io)) (made-append xs ys)
made-append (process_connection c ∷ xs) ys = made-append xs ys
made-append (async_accept c ∷ xs) ys = made-append xs ys
made-append (report e m ∷ xs) ys = made-append xs ys

-- Connections c, c + 1, … with the io_contexts that nextIO() returns from now on.
abbrev pub upcoming : ℕ → ℕ → IoService → List (ℕ × Option ℕ)
upcoming c zero s = []
upcoming c (suc n) s = (c, (next_io s).0) ∷ upcoming (c + 1) n (next_io s).1

abbrev pub successes : ℕ → List (Option AsioError)
successes zero = []
successes (suc n) = none ∷ successes n

accept-fields :
    (l : Listener) (c : ℕ)
    → l.accepting ≡ some c
    → l.next_connection ≡ c + 1
    → ((accept none l).accepting ≡ some (c + 1))
      × ((accept none l).next_connection ≡ c + 1 + 1)
      × ((accept none l).io_service ≡ (next_io l.io_service).1)
      × ((accept none l).calls
          ≡ l.calls
            ++ process_connection c
              ∷ make_connection (c + 1) (next_io l.io_service).0
              ∷ async_accept (c + 1)
              ∷ [])
unfolding accept
accept-fields l c h next = (
  rw (h, accept) (rw next refl),
  rw (h, accept) (rw next refl),
  rw (h, accept) refl,
  rw (h, accept) (rw next (simp append_assoc)),
)

accept_successes :
    (n : ℕ) (l : Listener) (c : ℕ)
    → l.accepting ≡ some c
    → l.next_connection ≡ c + 1
    → ((accept_each (successes n) l).accepting ≡ some (c + n))
      × (processed (accept_each (successes n) l).calls ≡ processed l.calls ++ add_io c n)
      × (made (accept_each (successes n) l).calls ≡ made l.calls ++ upcoming (c + 1) n l.io_service)
unfolding accept_each add_io
accept_successes zero l c h next = (rw add-zero h, rw append-nil refl, rw append-nil refl)
accept_successes (suc n) l c h next =
    let (accepting, next', service, calls) = accept-fields l c h next in
    let (a, p, m) = accept_successes n (accept none l) (c + 1) accepting next' in
    (
      a ∙ ap some (omega arith),
      p ∙ rw (calls, processed-append) (simp append_assoc),
      m ∙ rw (calls, service, made-append) (simp append_assoc),
    )

made_listener :
    (s : IoService)
    → ((make_connection_listener s).accepting ≡ some 0)
      × ((make_connection_listener s).next_connection ≡ 1)
      × ((make_connection_listener s).io_service ≡ (next_io s).1)
      × ((make_connection_listener s).calls ≡ make_connection 0 (next_io s).0 ∷ async_accept 0 ∷ [])
unfolding make_connection_listener
made_listener s = (refl, omega arith, refl, refl)

-- A new listener whose first n accepts succeed: connections 0 to n - 1 read requests, each from the
-- time when it was accepted on and in that order; one more connection is made, the one that the
-- pending accept is for; and the connections got, in their order, the io_contexts that nextIO()
-- returned.
pub accepts_in_turn :
    (n : ℕ) (s : IoService)
    → ((accept_each (successes n) (make_connection_listener s)).accepting ≡ some n)
      × (processed (accept_each (successes n) (make_connection_listener s)).calls ≡ add_io 0 n)
      × (made (accept_each (successes n) (make_connection_listener s)).calls ≡ upcoming 0 (suc n) s)
accepts_in_turn n s =
    let (accepting, next, service, calls) = made_listener s in
    let (a, p, m) = accept_successes n (make_connection_listener s) 0 accepting next in
    (a ∙ ap some (omega arith), p ∙ rw calls refl, m ∙ rw (calls, service) refl)

accept-idle : (error : Option AsioError) (l : Listener) → l.accepting ≡ none → accept error l ≡ l
unfolding accept
accept-idle error l h = ground arith

accept_each-none :
    (later : List (Option AsioError)) (l : Listener) → l.accepting ≡ none → accept_each later l ≡ l
unfolding accept_each
accept_each-none [] l h = refl
accept_each-none (x ∷ rest) l h =
    ap (accept_each rest) (accept-idle x l h) ∙ accept_each-none rest l h

-- An accept that fails is reported, and it is the last one of the listener: whatever comes after it,
-- no connection is accepted or made any more.
pub failed_accept_is_last :
    (error : AsioError) (later : List (Option AsioError)) (l : Listener) (c : ℕ)
    → l.accepting ≡ some c
    → accept_each later (accept (some error) l)
      ≡ record l { accepting = none; calls = l.calls ++ report connection_error error.message ∷ [] }
unfolding accept
failed_accept_is_last error later l c h = rw (h, accept) (accept_each-none later _ refl)
