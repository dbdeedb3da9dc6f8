-- ===== src/Connection/Session/Keeps.antt =====
-- A connection that keeps its promise, and each of its handlers.
use asyncgi.Connection.Responders.{lock_stale}
use asyncgi.Connection.Answers.{final_event, IsCurrent, lock_join, send_again, send-IsCurrent}
use asyncgi.Connection.Defs.{Connection}
use asyncgi.Net.Outbox.{CloseErrors, size_mod}
use asyncgi.Response.Processor.{Ending, FastcgiResponse, threw, returned}
use asyncgi.Connection.Requests.{HttpResponse, lock, begin_request, responder_send_fastcgi}
use asyncgi.Response.Sender.{FcgiResponse, is_sent, ResponseSender}
use asyncgi.Connection.Session.Promise.{Promise, answered}
use asyncgi.Connection.Session.Log.{Logged, send-Logged, event-Logged}
use asyncgi.Common.{
  ℕ, ◌+◌, ◌<◌, ◌≡◌, refl, ap, subst, ◌∙◌, ◌⊎◌, inl, inr, true, false, Option, none, some, List,
  arith, ◌==◌, Bool-cases, Bytes, length,
}

-- Nobody can answer, or the last request has its response and can be answered.
module _ {ℓ} {Q F H : Type ℓ} (fcgi : FcgiResponse F) (http : HttpResponse H) where
  abbrev pub CanAnswer : Option (ℕ × F) → Connection Q (ResponseSender F) → Type ℓ
  CanAnswer none c =
      ((id : ℕ) → lock fcgi http id c ≡ none) ⊎ ((id : ℕ) × IsCurrent fcgi http id true c)
  CanAnswer (some (id, f)) c =
      (lock fcgi http id c ≡ some (record { response = f })) × (fcgi.is_valid f ≡ true)

  -- The connection has promised what was sent.
  pub record Keeps (fl : List ℕ) (wire : Bytes) (c : Connection Q (ResponseSender F))
      (p : Promise F) : Type ℓ where
    pub logged : Logged fl wire p.stream c
    pub numbered : c.next_context ≡ p.next
    pub can_answer : CanAnswer p.unanswered c

  pub begin-Keeps :
      (q : Q) (f : F) (fl : List ℕ) (wire : Bytes) (c : Connection Q (ResponseSender F))
      (p : Promise F)
      → fcgi.is_valid f ≡ true
      → Keeps fl wire c p
      → Keeps fl wire
          (begin_request fcgi http q f c)
          (record p { unanswered = some (p.next, f); next = p.next + 1 })
  unfolding begin_request
  begin-Keeps q f fl wire c p valid k = record {
    logged = record { settled = k.logged.settled; waits = k.logged.waits };
    numbered = ap (λ n. n + 1) k.numbered;
    can_answer = (
      lock_join fcgi http p.next (begin_request fcgi http q f c) (ap some k.numbered) refl,
      valid,
    );
  }

  pub send-Keeps :
      (e : CloseErrors) (id : ℕ) (r : FastcgiResponse) (f : F) (fl : List ℕ) (wire : Bytes)
      (c : Connection Q (ResponseSender F)) (p : Promise F)
      → length (answered fcgi r f p).stream < size_mod
      → p.unanswered ≡ some (id, f)
      → Keeps fl wire c p
      → Keeps fl wire (responder_send_fastcgi fcgi http e id r c) (answered fcgi r f p)
  unfolding is_sent
  send-Keeps e id r f fl wire c p fits waits k =
      let (locked, valid) = subst (λ (u : Option (ℕ × F)). CanAnswer u c) waits k.can_answer in
      let (logged, kept) =
        send-Logged fcgi http e id r fl wire p.stream c (record { response = f }) locked
          (rw valid refl) fits k.logged in
      let current : IsCurrent fcgi http id false c = record {
        sender = record { response = f };
        locked = locked;
        is_out = rw valid refl;
      } in
      record {
        logged = logged;
        numbered = kept ∙ k.numbered;
        can_answer = inr (id, send-IsCurrent fcgi http e id r false c current);
      }

  pub stale-Keeps :
      (e : CloseErrors) (id : ℕ) (r : FastcgiResponse) (c : Connection Q (ResponseSender F))
      → lock fcgi http id c ≡ none
      → responder_send_fastcgi fcgi http e id r c ≡ c
  unfolding responder_send_fastcgi
  stale-Keeps e id r c h = rw (h, responder_send_fastcgi) refl

  pub shut-Keeps :
      (e : CloseErrors) (id : ℕ) (r : FastcgiResponse) (c : Connection Q (ResponseSender F))
      → CanAnswer none c
      → responder_send_fastcgi fcgi http e id r c ≡ c
  shut-Keeps e id r c (inl h) = stale-Keeps e id r c (h id)
  shut-Keeps e id r c (inr (alive, current)) = elim (Bool-cases (alive == id)) [
    | inl same ↦
        let is : alive ≡ id = ground arith in
        send_again fcgi http e id r c (subst (λ (n : ℕ). IsCurrent fcgi http n true c) is current)
    | inr other ↦
        stale-Keeps e id r c
          (lock_stale fcgi http id alive c current.locked (λ is. absurd (ground arith)))
  ]

  lock-frame :
      (c c' : Connection Q (ResponseSender F))
      → c'.response_context ≡ c.response_context
      → c'.response_sender ≡ c.response_sender
      → (id : ℕ) → lock fcgi http id c' ≡ lock fcgi http id c
  unfolding lock
  lock-frame c c' same_context same_sender id = ground arith

  CanAnswer-frame :
      (c c' : Connection Q (ResponseSender F))
      → c'.response_context ≡ c.response_context
      → c'.response_sender ≡ c.response_sender
      → (u : Option (ℕ × F)) → CanAnswer u c
      → CanAnswer u c'
  CanAnswer-frame c c' h k none (inl gone) = inl (λ id. lock-frame c c' h k id ∙ gone id)
  CanAnswer-frame c c' h k none (inr (id, current)) = inr (
    id,
    record {
      sender = current.sender;
      locked = lock-frame c c' h k id ∙ current.locked;
      is_out = current.is_out;
    },
  )
  CanAnswer-frame c c' h k (some (id, f)) (locked, valid) = (lock-frame c c' h k id ∙ locked, valid)

  -- A connection that differs in its write path alone
  pub frame-Keeps :
      (fl fl' : List ℕ) (wire wire' : Bytes) (c c' : Connection Q (ResponseSender F))
      (p : Promise F)
      → Logged fl' wire' p.stream c'
      → c'.next_context ≡ c.next_context
      → c'.response_context ≡ c.response_context
      → c'.response_sender ≡ c.response_sender
      → Keeps fl wire c p
      → Keeps fl' wire' c' p
  frame-Keeps fl fl' wire wire' c c' p logged same_number same_context same_sender k = record {
    logged = logged;
    numbered = same_number ∙ k.numbered;
    can_answer = CanAnswer-frame c c' same_context same_sender p.unanswered k.can_answer;
  }

  pub event-Keeps :
      (t : Ending) (fl : List ℕ) (wire : Bytes) (c : Connection Q (ResponseSender F))
      (p : Promise F)
      → Keeps fl wire c p
      → Keeps fl wire (final_event fcgi http t c) p
  event-Keeps returned fl wire c p k = k
  event-Keeps (threw t) fl wire c p k =
      frame-Keeps fl fl wire wire c (final_event fcgi http (threw t) c) p
        (event-Logged _ _ fl wire p.stream c k.logged) refl refl refl k
