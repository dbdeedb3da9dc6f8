-- ===== src/ClientService/Defs.antt =====
-- The state of a ClientService and what it calls. Requests are numbered as they are made; a request
-- has a timer, a client connection and a response handler of its own, which go by its number.
use asyncgi.Events.{ErrorEvent}
use asyncgi.Common.{ℕ, Option, none, some, List, [], ◌∷◌, ◌++◌, Bytes}

pub data Endpoint : Type 0 where
  local : Bytes → Endpoint
  tcp : Bytes → ℕ → Endpoint

-- struct Request of include/asyncgi/types.h
pub record FastcgiRequest : Type 0 where
  pub params : List (Bytes × Bytes)
  pub std_in : Bytes

-- fcgi::ResponseData of fcgi_responder
pub record ResponseData : Type 0 where
  pub response_data : Bytes
  pub error_msg : Bytes

-- What a response handler is given: a fastcgi::Response, or what http::responseFromString reads.
pub data Reply {ℓ} (V : Type ℓ) : Type ℓ where
  fastcgi_reply : Bytes → Bytes → Reply V
  http_reply : V → Reply V

-- Which of the two kinds of handler a request has.
pub data Form : Type 0 where
  fastcgi_form : Form
  http_form : Form

pub data ClientCall {ℓ} (V : Type ℓ) : Type ℓ where
  stop_queue : ℕ → ClientCall V
  launch_queue : ℕ → ClientCall V
  start_timer : ℕ → ℕ → ClientCall V
  stop_timer : ℕ → ClientCall V
  -- ClientConnection::makeRequest
  connect : ℕ → Endpoint → FastcgiRequest → ClientCall V
  report : ErrorEvent → Bytes → ClientCall V
  handle : ℕ → Option (Reply V) → ClientCall V

-- A request whose handler has not been called.
pub record Pending : Type 0 where
  pub id : ℕ
  pub form : Form

pub record ClientService {ℓ} (V : Type ℓ) : Type ℓ where
  pub request_processor_queue : Option ℕ
  pub local_client_connections : List ℕ
  pub tcp_client_connections : List ℕ
  pub next_request : ℕ
  pub pending : List Pending
  pub calls : List (ClientCall V)

-- The constructor of ClientService
abbrev pub make_client_service {ℓ} : {V : Type ℓ} → ClientService V
make_client_service = record {
  request_processor_queue = none;
  local_client_connections = [];
  tcp_client_connections = [];
  next_request = 0;
  pending = [];
  calls = [];
}

module _ {ℓ} {V : Type ℓ} where
  abbrev pub issue : ClientCall V → ClientService V → ClientService V
  issue call s = record s { calls = s.calls ++ call ∷ [] }

  -- if (requestProcessorQueue_) ...
  abbrev pub on_queue : (ℕ → ClientCall V) → ClientService V → ClientService V
  on_queue call s = elim s.request_processor_queue [ none ↦ s | some q ↦ issue (call q) s ]
