-- ===== src/Examples/Http.antt =====
-- http::Response, http::Redirect and http::Cookie of hot_teacup, by the constructors that the examples
-- call: what a response looks like on the wire is that library's.
use asyncgi.Common.{ℕ, Bool, true, false, List, Bytes}

pub record Cookie : Type 0 where
  pub name : Bytes
  pub value : Bytes

pub data Response : Type 0 where
  page : Bytes → Response
  status : ℕ → Response
  status_page : ℕ → Bytes → Response
  redirect : Bytes → List Cookie → Response
  -- set() with a path and RedirectType::Found
  found_redirect : Bytes → Response

-- http::RequestMethod, as far as the examples name it
pub data RequestMethod : Type 0 where
  get : RequestMethod
  post : RequestMethod
  other_method : RequestMethod

abbrev pub same_method : RequestMethod → RequestMethod → Bool
same_method get get = true
same_method get post = false
same_method get other_method = false
same_method post get = false
same_method post post = true
same_method post other_method = false
same_method other_method get = false
same_method other_method post = false
same_method other_method other_method = true

-- What the examples ask of an asyncgi::Request; the accessors are those of Request.View.
pub record Asked {ℓ} (R : Type ℓ) : Type ℓ where
  pub path : R → Bytes
  pub method : R → RequestMethod
  pub query : Bytes → R → Bytes
  pub has_query : Bytes → R → Bool
  pub cookie : Bytes → R → Bytes
  pub form_field : Bytes → R → Bytes
