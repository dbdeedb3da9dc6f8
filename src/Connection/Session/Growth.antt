-- ===== src/Connection/Session/Growth.antt =====
-- What a connection promises only grows (src/connection.cpp).
use asyncgi.Connection.Session.{Event, reads, sends_late, completes, CloseErrors}
use asyncgi.Connection.Session.Promise.{Promise, answer_bytes, asked, asked_all, promise, promises}
use asyncgi.Connection.Requests.{HttpResponse}
use asyncgi.Response.Sender.{FcgiResponse}
use asyncgi.Response.Processor.{RequestProcessor, FastcgiResponse}
use asyncgi.Connection.Answers.{final_answer, expected}
use asyncgi.Common.{
  ℕ, zero, suc, ◌≤◌, ◌≡◌, refl, sym, ap, ◌∙◌, inl, inr, Option, none, some, List, [], ◌∷◌, ◌++◌,
  append-nil, append_assoc, arith, ◌==◌, Bool-cases, Bytes, length, take, length-append,
}

pub record IsPrefix (xs ys : Bytes) : Type 0 where
  pub rest : Bytes
  pub joined : xs ++ rest ≡ ys

pub IsPrefix-refl : (xs : Bytes) → IsPrefix xs xs
IsPrefix-refl xs = record { rest = []; joined = append-nil xs }

pub IsPrefix-trans : {xs ys zs : Bytes} → IsPrefix xs ys → IsPrefix ys zs → IsPrefix xs zs
IsPrefix-trans {xs} h k = record {
  rest = h.rest ++ k.rest;
  joined = sym (append_assoc xs h.rest k.rest) ∙ ap (λ ws. ws ++ k.rest) h.joined ∙ k.joined;
}

pub IsPrefix-length : {xs ys : Bytes} → IsPrefix xs ys → length xs ≤ length ys
IsPrefix-length {xs} h = omega (arith, ap length h.joined, length-append xs h.rest)

pub append-IsPrefix : {ys zs : Bytes} (xs : Bytes) → IsPrefix ys zs → IsPrefix (xs ++ ys) (xs ++ zs)
append-IsPrefix {ys} xs h = record {
  rest = h.rest;
  joined = append_assoc xs ys h.rest ∙ ap (λ ws. xs ++ ws) h.joined;
}

pub take-IsPrefix : (k : ℕ) (xs : Bytes) → IsPrefix (take k xs) xs
take-IsPrefix zero xs = record { rest = xs; joined = refl }
take-IsPrefix (suc k) [] = record { rest = []; joined = refl }
take-IsPrefix (suc k) (x ∷ xs) =
    let h = take-IsPrefix k xs in record { rest = h.rest; joined = ap (λ ws. x ∷ ws) h.joined }

module _ {ℓ} {F : Type ℓ} (fcgi : FcgiResponse F) where
  asked-IsPrefix :
      (r : Option FastcgiResponse) (f : F) (p : Promise F)
      → IsPrefix p.stream (asked fcgi r f p).stream
  asked-IsPrefix none f p = IsPrefix-refl p.stream
  asked-IsPrefix (some r) f p = record { rest = answer_bytes fcgi r f; joined = refl }

module _ {ℓ} {Q F H A : Type ℓ} (fcgi : FcgiResponse F) (http : HttpResponse H)
    (make_request : Q → A) (processor : RequestProcessor A H) where
  late-IsPrefix :
      (e : CloseErrors) (id : ℕ) (r : FastcgiResponse) (u : Option (ℕ × F)) (n : ℕ) (stream : Bytes)
      → let p : Promise F = record { unanswered = u; next = n; stream = stream } in
        IsPrefix stream (promise fcgi http make_request processor (sends_late e id r) p).stream
  unfolding promise
  late-IsPrefix e id r none n stream = IsPrefix-refl stream
  late-IsPrefix e id r (some (last, f)) n stream = elim (Bool-cases (last == id)) [
    | inl same ↦ rw same (record { rest = answer_bytes fcgi r f; joined = refl })
    | inr other ↦ rw other (IsPrefix-refl stream)
  ]

  pub asked_all-IsPrefix :
      (rs : List (Q × F)) (p : Promise F)
      → IsPrefix p.stream (asked_all fcgi http make_request processor rs p).stream
  asked_all-IsPrefix [] p = IsPrefix-refl p.stream
  asked_all-IsPrefix ((q, f) ∷ rest) p =
      let r = final_answer http (expected http processor (make_request q)) in
      IsPrefix-trans (asked-IsPrefix fcgi r f p) (asked_all-IsPrefix rest (asked fcgi r f p))

  pub promise-IsPrefix :
      (ev : Event Q F) (p : Promise F)
      → IsPrefix p.stream (promise fcgi http make_request processor ev p).stream
  unfolding promise
  promise-IsPrefix (reads e rs) p = asked_all-IsPrefix rs p
  promise-IsPrefix (sends_late e id r) p = late-IsPrefix e id r p.unanswered p.next p.stream
  promise-IsPrefix (completes e xs n ys) p = IsPrefix-refl p.stream

  pub promises-IsPrefix :
      (evs : List (Event Q F)) (p : Promise F)
      → IsPrefix p.stream (promises fcgi http make_request processor evs p).stream
  promises-IsPrefix [] p = IsPrefix-refl p.stream
  promises-IsPrefix (ev ∷ evs) p =
      IsPrefix-trans (promise-IsPrefix ev p)
        (promises-IsPrefix evs (promise fcgi http make_request processor ev p))
