-- ===== src/Response/Processor.antt =====
-- include/asyncgi/requestprocessor.h: user code that answers requests, as the calls that it makes on
-- its Responder and the way it ends.
-- struct Response of include/asyncgi/types.h
use asyncgi.Common.{Bool, Bytes}

pub record FastcgiResponse : Type 0 where
  pub response_data : Bytes
  pub error_msg : Bytes

-- A std::exception with its what(), or anything else.
pub data Thrown : Type 0 where
  std_exception : Bytes → Thrown
  unknown : Thrown

pub data Ending : Type 0 where
  returned : Ending
  threw : Thrown → Ending

-- A run of user code with a Responder; `H` is http::Response. What it does next may depend on
-- isSent().
pub data Script {ℓ} (H : Type ℓ) : Type ℓ where
  done : Ending → Script H
  send_http : H → Script H → Script H
  send_fastcgi : FastcgiResponse → Script H → Script H
  ask_sent : (Bool → Script H) → Script H

-- A call of a function that returns a response, or throws.
pub data Returns {ℓ} (A : Type ℓ) : Type ℓ where
  returns : A → Returns A
  throws : Thrown → Returns A

-- The signatures that checkRequestProcessorSignature admits; `Q` is asyncgi::Request.
pub data RequestProcessor {ℓ κ} (Q : Type ℓ) (H : Type κ) : Type (ℓ ⊔ κ) where
  responding : (Q → Script H) → RequestProcessor Q H
  returning_http : (Q → Returns H) → RequestProcessor Q H
  returning_fastcgi : (Q → Returns FastcgiResponse) → RequestProcessor Q H

reply_http {ℓ} : {H : Type ℓ} → Returns H → Script H
reply_http (returns h) = send_http h (done returned)
reply_http (throws e) = done (threw e)

reply_fastcgi {ℓ} : {H : Type ℓ} → Returns FastcgiResponse → Script H
reply_fastcgi (returns r) = send_fastcgi r (done returned)
reply_fastcgi (throws e) = done (threw e)

-- The function that the constructor of RequestProcessor stores; one for lvalues and one for rvalues,
-- which do the same.
unfoldable pub invoke {ℓ κ} : {Q : Type ℓ} {H : Type κ} → RequestProcessor Q H → Q → Script H
unfolding reply_http reply_fastcgi
invoke (responding f) q = f q
invoke (returning_http f) q = reply_http (f q)
invoke (returning_fastcgi f) q = reply_fastcgi (f q)
