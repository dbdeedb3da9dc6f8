-- ===== src/Connection/Session/Pages.antt =====
-- A connection whose user code returns each response, of http or of fastcgi, or throws (src/connection.cpp,
-- include/asyncgi/requestprocessor.h).
use asyncgi.Connection.Answers.{final_answer, expected, returned_http, returned_fastcgi}
use asyncgi.Connection.Session.{
  Event, reads, sends_late, completes, accepted, all_happen, AllCanHappen, CloseErrors,
}
use asyncgi.Connection.Session.Promise.{
  Promise, no_requests, answer_bytes, asked_all, promise, promises, answered,
}
use asyncgi.Connection.Session.Refinement.{serves_as_promised}
use asyncgi.Connection.Requests.{HttpResponse}
use asyncgi.Response.Sender.{FcgiResponse}
use asyncgi.Response.Processor.{
  FastcgiResponse, Returns, returns, throws, returning_http, returning_fastcgi, RequestProcessor,
}
use asyncgi.Net.Outbox.{size_mod}
use asyncgi.Net.Link.Invariant.{unsent_bytes}
use asyncgi.Common.{
  ℕ, ◌+◌, ◌<◌, ◌≡◌, refl, sym, ap, ◌∙◌, ◌⊎◌, inl, inr, none, some, List, [], ◌∷◌, ◌++◌, append-nil,
  append_assoc, arith, Bytes, length, sum,
}

-- The requests of a session, in the order in which they end.
abbrev pub requests_of {ℓ} : {Q F : Type ℓ} → List (Event Q F) → List (Q × F)
requests_of [] = []
requests_of (reads e rs ∷ evs) = rs ++ requests_of evs
requests_of (sends_late e id r ∷ evs) = requests_of evs
requests_of (completes e xs n ys ∷ evs) = requests_of evs

-- User code of one of the two signatures that return a response.
abbrev pub Page {ℓ} : Type ℓ → Type ℓ → Type ℓ
Page A H = (A → Returns H) ⊎ (A → Returns FastcgiResponse)

abbrev pub returning {ℓ} : {A H : Type ℓ} → Page A H → RequestProcessor A H
returning (inl f) = returning_http f
returning (inr f) = returning_fastcgi f

abbrev pub error_reply {ℓ} : {H : Type ℓ} → HttpResponse H → FastcgiResponse
error_reply http = record { response_data = http.cgi_data (http.of_status 500); error_msg = [] }

-- What is sent for a response that was returned, and for an exception.
abbrev pub reply_of {ℓ} : {H : Type ℓ} → HttpResponse H → Returns H → FastcgiResponse
reply_of http (returns h) = record { response_data = http.cgi_data h; error_msg = [] }
reply_of http (throws t) = error_reply http

abbrev pub fastcgi_reply_of {ℓ} :
    {H : Type ℓ} → HttpResponse H → Returns FastcgiResponse → FastcgiResponse
fastcgi_reply_of http (returns r) = r
fastcgi_reply_of http (throws t) = error_reply http

abbrev pub reply {ℓ} : {A H : Type ℓ} → HttpResponse H → Page A H → A → FastcgiResponse
reply http (inl f) a = reply_of http (f a)
reply http (inr f) a = fastcgi_reply_of http (f a)

module _ {ℓ} {Q F H A : Type ℓ} (fcgi : FcgiResponse F) (http : HttpResponse H)
    (make_request : Q → A) (page : Page A H) where
  abbrev pub answers : List (Q × F) → Bytes
  answers [] = []
  answers ((q, f) ∷ rest) = answer_bytes fcgi (reply http page (make_request q)) f ++ answers rest

  -- Nothing is left to be answered later.
  abbrev AllAnswered : Promise F → Bytes → Promise F → Type ℓ
  AllAnswered p more p' = (p'.unanswered ≡ none) × (p'.stream ≡ p.stream ++ more)

  http-answer : (r : Returns H) → final_answer http (returned_http http r) ≡ some (reply_of http r)
  http-answer (returns h) = refl
  http-answer (throws t) = refl

  fastcgi-answer :
      (r : Returns FastcgiResponse)
      → final_answer http (returned_fastcgi r) ≡ some (fastcgi_reply_of http r)
  fastcgi-answer (returns r) = refl
  fastcgi-answer (throws t) = refl

  page-answer :
      (p : Page A H) (a : A)
      → final_answer http (expected http (returning p) a) ≡ some (reply http p a)
  page-answer (inl f) a = http-answer (f a)
  page-answer (inr f) a = fastcgi-answer (f a)

  asked_all-answers :
      (rs : List (Q × F)) (p : Promise F)
      → p.unanswered ≡ none
      → AllAnswered p (answers rs) (asked_all fcgi http make_request (returning page) rs p)
  asked_all-answers [] p open_none = (open_none, sym (append-nil p.stream))
  asked_all-answers ((q, f) ∷ rest) p open_none =
      let answer = answer_bytes fcgi (reply http page (make_request q)) f in
      rw (page-answer page (make_request q), asked_all)
        (let (closed, stream) =
            asked_all-answers rest
              (answered fcgi (reply http page (make_request q)) f (record p { next = p.next + 1 }))
              refl in
          (closed, stream ∙ append_assoc p.stream answer (answers rest)))

  answers-append : (xs ys : List (Q × F)) → answers (xs ++ ys) ≡ answers xs ++ answers ys
  answers-append [] ys = refl
  answers-append ((q, f) ∷ xs) ys =
      ap (λ bs. answer_bytes fcgi (reply http page (make_request q)) f ++ bs) (answers-append xs ys)
      ∙ sym (
          append_assoc (answer_bytes fcgi (reply http page (make_request q)) f) (answers xs)
            (answers ys))

  late-nothing :
      (e : CloseErrors) (id : ℕ) (r : FastcgiResponse) (p : Promise F)
      → p.unanswered ≡ none
      → promise fcgi http make_request (returning page) (sends_late e id r) p ≡ p
  unfolding promise
  late-nothing e id r p h = ground arith

  promises-answers :
      (evs : List (Event Q F)) (p : Promise F)
      → p.unanswered ≡ none
      → AllAnswered p
          (answers (requests_of evs))
          (promises fcgi http make_request (returning page) evs p)
  unfolding promise
  promises-answers [] p h = (h, sym (append-nil p.stream))
  promises-answers (reads e rs ∷ evs) p h =
      let (none_open, stream) = asked_all-answers rs p h in
      let (closed, more) =
        promises-answers evs (asked_all fcgi http make_request (returning page) rs p) none_open in
      (
        closed,
        more
            ∙ ap (λ bs. bs ++ answers (requests_of evs)) stream
            ∙ append_assoc p.stream (answers rs) (answers (requests_of evs))
            ∙ ap (λ bs. p.stream ++ bs) (sym (answers-append rs (requests_of evs))),
      )
  promises-answers (sends_late e id r ∷ evs) p h =
      rw (late-nothing e id r p h, promises) (promises-answers evs p h)
  promises-answers (completes e xs n ys ∷ evs) p h = promises-answers evs p h

  -- A connection that is just accepted, whose user code returns a response for each request (an http
  -- one, or a fastcgi one with its error message) or throws,
  -- whose writes all end without an error, and that then has any reads of requests with valid
  -- responses, sends of kept Responders and completed writes, in any order, while its answers together
  -- are below 2 ^ 64 bytes. What has reached the peer, then what is left of the write under way, then
  -- what waits in nextWriteBuffer_, is exactly one answer for each request, in the order of the
  -- requests: the response that was returned, or status 500. When no byte is under way, the peer has
  -- all of them.
  pub one_answer_each :
      (evs : List (Event Q F))
      → AllCanHappen fcgi http make_request (returning page) evs accepted
      → length (answers (requests_of evs)) < size_mod
      → let s = all_happen fcgi http make_request (returning page) evs accepted in
        (s.wire ++ unsent_bytes s.conn.outbox ≡ answers (requests_of evs))
        × ((0 < sum s.in_flight) ⊎ (s.wire ≡ answers (requests_of evs)))
  one_answer_each evs can fits =
      let (closed, stream) = promises-answers evs no_requests refl in
      rw stream at
        (serves_as_promised fcgi http make_request (returning page) evs can (rw stream fits))
