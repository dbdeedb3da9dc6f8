-- ===== src/Response/Sender.antt =====
-- src/responsesender.h and src/responsesender.cpp, over fcgi::Response of fcgi_responder.
-- What fcgi::Response::send() calls on the connection that it answers.
use asyncgi.Common.{◌≡◌, Bool, true, false, not, List, [], arith, if◌then◌else◌, Bytes}

pub data Callback : Type 0 where
  callback_send : Bytes → Callback
  callback_disconnect : Callback

-- fcgi::Response. A response is valid until it is sent, whatever is stored in it.
pub record FcgiResponse {ℓ} (F : Type ℓ) : Type ℓ where
  pub is_valid : F → Bool
  pub set_data : Bytes → F → F
  pub set_error_msg : Bytes → F → F
  pub send : F → F × List Callback
  pub is_valid-set_data : (d : Bytes) (f : F) → is_valid (set_data d f) ≡ is_valid f
  pub is_valid-set_error_msg : (d : Bytes) (f : F) → is_valid (set_error_msg d f) ≡ is_valid f
  pub is_valid-send : (f : F) → is_valid f ≡ true → is_valid (send f).0 ≡ false

pub record ResponseSender {ℓ} (F : Type ℓ) : Type ℓ where
  pub response : F

module _ {ℓ} {F : Type ℓ} (api : FcgiResponse F) where
  unfoldable pub send_with_error :
      Bytes → Bytes → ResponseSender F → ResponseSender F × List Callback
  send_with_error d error_msg s =
      if not (api.is_valid s.response)
      then (s, [])
      else let filled = api.set_error_msg error_msg (api.set_data d s.response) in
        let (spent, callbacks) = api.send filled in (record { response = spent }, callbacks)

  unfoldable pub send : Bytes → ResponseSender F → ResponseSender F × List Callback
  unfolding send_with_error
  send d s = send_with_error d [] s

  unfoldable pub is_sent : ResponseSender F → Bool
  is_sent s = not (api.is_valid s.response)

  -- Nothing goes out twice.
  pub send_with_error-sent :
      (d error_msg : Bytes) (s : ResponseSender F)
      → is_sent s ≡ true
      → send_with_error d error_msg s ≡ (s, [])
  unfolding send_with_error is_sent
  send_with_error-sent d error_msg s h = ground arith

  pub is_sent-send_with_error :
      (d error_msg : Bytes) (s : ResponseSender F)
      → is_sent (send_with_error d error_msg s).0 ≡ true
  unfolding send_with_error is_sent
  is_sent-send_with_error d error_msg s = ground (
    arith,
    api.is_valid-set_data d s.response,
    api.is_valid-set_error_msg error_msg (api.set_data d s.response),
    api.is_valid-send (api.set_error_msg error_msg (api.set_data d s.response)),
  )

  -- A response that is not sent yet goes out with its data and its error message.
  pub send_with_error-first :
      (d error_msg : Bytes) (s : ResponseSender F)
      → is_sent s ≡ false
      → let out = api.send (api.set_error_msg error_msg (api.set_data d s.response)) in
        send_with_error d error_msg s ≡ (record { response = out.0 }, out.1)
  unfolding send_with_error is_sent
  send_with_error-first d error_msg s h = ground arith
