-- ===== src/Connection/Session/Promise.antt =====
-- What a connection promises: the bytes that its requests are answered with, one answer after the other,
-- and no word of buffers, writes and contexts.
use asyncgi.Response.Processor.{RequestProcessor, FastcgiResponse}
use asyncgi.Connection.Answers.{final_answer, expected}
use asyncgi.Response.Sender.{FcgiResponse, Callback, callback_send, callback_disconnect}
use asyncgi.Common.{ℕ, ◌+◌, Option, none, some, List, [], ◌∷◌, ◌++◌, ◌==◌, if◌then◌else◌, Bytes}
use asyncgi.Connection.Session.{Event, reads, sends_late, completes}
use asyncgi.Connection.Requests.{HttpResponse}

-- The number of the last request and its response, where it is not answered yet; the number of the next
-- request; and the bytes of all answers so far.
pub record Promise {ℓ} (F : Type ℓ) : Type ℓ where
  pub unanswered : Option (ℕ × F)
  pub next : ℕ
  pub stream : Bytes

abbrev pub no_requests {ℓ} : {F : Type ℓ} → Promise F
no_requests = record { unanswered = none; next = 0; stream = [] }

-- The bytes that fcgi_responder sends.
abbrev pub bytes_of : List Callback → Bytes
bytes_of [] = []
bytes_of (callback_send d ∷ rest) = d ++ bytes_of rest
bytes_of (callback_disconnect ∷ rest) = bytes_of rest

module _ {ℓ} {F : Type ℓ} (fcgi : FcgiResponse F) where
  -- A response with its data and its error message, as it goes out.
  abbrev pub answer_bytes : FastcgiResponse → F → Bytes
  answer_bytes r f =
      bytes_of (fcgi.send (fcgi.set_error_msg r.error_msg (fcgi.set_data r.response_data f))).1

  abbrev pub answered : FastcgiResponse → F → Promise F → Promise F
  answered r f p = record p { unanswered = none; stream = p.stream ++ answer_bytes r f }

  abbrev pub asked : Option FastcgiResponse → F → Promise F → Promise F
  asked none f p = record p { unanswered = some (p.next, f); next = p.next + 1 }
  asked (some r) f p = answered r f (record p { next = p.next + 1 })

module _ {ℓ} {Q F H A : Type ℓ} (fcgi : FcgiResponse F) (http : HttpResponse H)
    (make_request : Q → A) (processor : RequestProcessor A H) where
  abbrev pub asked_all : List (Q × F) → Promise F → Promise F
  asked_all [] p = p
  asked_all ((q, f) ∷ rest) p =
      asked_all rest (asked fcgi (final_answer http (expected http processor (make_request q))) f p)

  -- An answer that user code gives at once is the first that it sends. A later one counts if it is to the
  -- last request, and the first to it. Writes that complete change nothing.
  unfoldable pub promise : Event Q F → Promise F → Promise F
  promise (reads e rs) p = asked_all rs p
  promise (sends_late e id r) p = elim p.unanswered [
    | none ↦ p
    | some (last, f) ↦ if last == id then answered fcgi r f p else p
  ]
  promise (completes e xs n ys) p = p

  abbrev pub promises : List (Event Q F) → Promise F → Promise F
  promises [] p = p
  promises (ev ∷ rest) p = promises rest (promise ev p)
