-- ===== src/Connection/Session/Faults.antt =====
-- A connection whose reads and writes may fail (src/connection.cpp).
use asyncgi.Connection.Session.{Event, Session, react, ended, happens, CanHappen}
use asyncgi.Connection.Session.Promise.{Promise, promise}
use asyncgi.Connection.Defs.{fresh, on_read, on_write}
use asyncgi.Connection.Requests.{HttpResponse}
use asyncgi.Response.Sender.{FcgiResponse}
use asyncgi.Response.Processor.{RequestProcessor}
use asyncgi.Net.Outbox.{CloseErrors}
use asyncgi.Events.{AsioError}
use asyncgi.Common.{ℕ, ◌≤◌, ◌≡◌, some, List, [], ◌∷◌, ◌++◌, take}

-- A write that fails may have written some of its bytes, the last number.
pub data Incident {ℓ} (Q F : Type ℓ) : Type ℓ where
  goes_well : Event Q F → Incident Q F
  write_fails : CloseErrors → AsioError → List ℕ → ℕ → List ℕ → ℕ → Incident Q F
  read_fails : CloseErrors → AsioError → Incident Q F

module _ {ℓ} {Q F H A : Type ℓ} (fcgi : FcgiResponse F) (http : HttpResponse H)
    (make_request : Q → A) (processor : RequestProcessor A H) where
  unfoldable pub occurs : Incident Q F → Session Q F → Session Q F
  unfolding happens
  occurs (goes_well ev) s = happens fcgi http make_request processor ev s
  occurs (write_fails e error xs n ys k) s =
      react (on_write e (some error) k (fresh s.conn))
        (ended xs ys (take k s.conn.outbox.write_buffer) s)
  occurs (read_fails e error) s = react (on_read (λ d c. c) e (some error) [] (fresh s.conn)) s

  abbrev pub CanOccur : Incident Q F → Session Q F → Type 0
  CanOccur (goes_well ev) s = CanHappen fcgi http make_request processor ev s
  CanOccur (write_fails e error xs n ys k) s = (s.in_flight ≡ xs ++ n ∷ ys) × (k ≤ n)
  CanOccur (read_fails e error) s = Unit

  abbrev pub all_occur : List (Incident Q F) → Session Q F → Session Q F
  all_occur [] s = s
  all_occur (i ∷ rest) s = all_occur rest (occurs i s)

  abbrev pub AllCanOccur : List (Incident Q F) → Session Q F → Type 0
  AllCanOccur [] s = Unit
  AllCanOccur (i ∷ rest) s = CanOccur i s × AllCanOccur rest (occurs i s)

  -- A failure promises nothing.
  abbrev pub promise_of : Incident Q F → Promise F → Promise F
  promise_of (goes_well ev) p = promise fcgi http make_request processor ev p
  promise_of (write_fails e error xs n ys k) p = p
  promise_of (read_fails e error) p = p

  abbrev pub promises_of : List (Incident Q F) → Promise F → Promise F
  promises_of [] p = p
  promises_of (i ∷ rest) p = promises_of rest (promise_of i p)
