-- ===== src/ClientService/Steps.antt =====
-- What makeRequest and onResponseReceived do to the balance of a client service.
use asyncgi.Events.{ErrorEvent, request_processing_error}
use asyncgi.Common.{
  ℕ, ◌≡◌, refl, inl, inr, Bool, false, Option, none, some, List, [], ◌∷◌, ◌++◌, append_assoc,
  Bool-cases, Bytes, is_empty,
}
use asyncgi.ClientService.Defs.{
  ClientService, ClientCall, FastcgiRequest, Pending, ResponseData, Reply, report, Form, on_queue,
  Endpoint, issue, stop_queue, stop_timer, handle, launch_queue,
}
use asyncgi.ClientService.Requests.{begin, connect_to, call_handler, on_response_received, reply}
use asyncgi.ClientService.Counts.{count}
use asyncgi.ClientService.Balance.{Balanced, request-Balanced, answer-Balanced}

module _ {ℓ} {V : Type ℓ} where
  pub on_queue-some :
      (call : ℕ → ClientCall V) (q : ℕ) (s : ClientService V)
      → s.request_processor_queue ≡ some q
      → on_queue call s ≡ issue (call q) s
  on_queue-some call q s h = rw h refl

  -- What the four overloads have in common, wherever they put the connection.
  pub connect_to-Balanced :
      (q : ℕ) (ls ts : List ℕ) (form : Form) (e : Endpoint) (r : FastcgiRequest) (timeout : ℕ)
      (s : ClientService V)
      → Balanced q s
      → Balanced q (
          connect_to form e r (record (begin timeout s) {
            local_client_connections = ls;
            tcp_client_connections = ts;
          }))
  unfolding begin connect_to
  connect_to-Balanced q ls ts form e r timeout s h =
      rw (on_queue-some stop_queue q s h.queue)
        (request-Balanced q timeout form e r s _ h refl refl refl (simp append_assoc))

  abbrev OnlyReports : List (ClientCall V) → Type ℓ
  OnlyReports reports =
      (p : ClientCall V → Bool)
      → ((e : ErrorEvent) (m : Bytes) → p (report e m) ≡ false)
      → count p reports ≡ 0

  finish-Balanced :
      (q : ℕ) (reports : List (ClientCall V)) (r : Option (Reply V)) (xs ys : List Pending)
      (x : Pending) (s : ClientService V) (log : List (ClientCall V))
      → OnlyReports reports
      → Balanced q s
      → s.pending ≡ xs ++ x ∷ ys
      → log ≡ s.calls ++ stop_timer x.id ∷ reports ++ handle x.id r ∷ []
      → Balanced q (on_queue launch_queue (record s { pending = xs ++ ys; calls = log }))
  finish-Balanced q reports r xs ys x s log only h was e =
      let u : ClientService V = record s { pending = xs ++ ys; calls = log } in
      rw (on_queue-some launch_queue q u h.queue) (
        answer-Balanced q reports r xs ys x s _ only h was refl refl refl
          (rw e (simp append_assoc)))

  pub answer_step-Balanced :
      (response_from_string : Bytes → V) (q : ℕ) (r : Option ResponseData) (xs ys : List Pending)
      (x : Pending) (s : ClientService V)
      → Balanced q s
      → s.pending ≡ xs ++ x ∷ ys
      → Balanced q (
          on_response_received response_from_string x.id x.form r (record s { pending = xs ++ ys }))
  unfolding on_response_received call_handler
  answer_step-Balanced f q none xs ys x s h was =
      finish-Balanced q [] none xs ys x s _ (λ p hp. refl) h was (simp append_assoc)
  answer_step-Balanced f q (some r) xs ys x s h was = elim (Bool-cases (is_empty r.error_msg)) [
    | inl e ↦ rw e (
        finish-Balanced q ([]) (some (reply f x.form r)) xs ys x s _ (λ p hp. refl) h was
          (simp append_assoc))
    | inr e ↦ rw e (
        finish-Balanced q (report request_processing_error r.error_msg ∷ [])
          (some (reply f x.form r)) xs ys x s _
          (λ p hp. rw (hp request_processing_error r.error_msg) refl) h was (simp append_assoc))
  ]
