-- ===== src/Request/View.antt =====
-- asyncgi::Request: what user code sees of a FastCGI request.
use asyncgi.Common.{ℕ, Bool, List, [], if◌then◌else◌, Bytes, text, ℤ}
use asyncgi.Request.Lazy
use asyncgi.Request.Lazy.{LazyInitialized, IsCoherent, get_lem}

-- fcgi::Request of fcgi_responder.
pub record FcgiRequest {ℓ} (Q : Type ℓ) : Type ℓ where
  pub has_param : Bytes → Q → Bool
  pub param : Bytes → Q → Bytes
  pub params : Q → List (Bytes × Bytes)
  pub std_in : Q → Bytes

-- http::RequestView of hot_teacup. `request_view` is its constructor: the method, the address of the
-- client, the host, the URI, the query string, the cookies, the content type and the body.
pub record RequestView {ℓ} (V : Type ℓ) : Type ℓ where
  pub request_view : Bytes → Bytes → Bytes → Bytes → Bytes → Bytes → Bytes → Bytes → V
  pub view_ip_address : V → Bytes
  pub view_domain_name : V → Bytes
  pub view_path : V → Bytes
  pub view_method : V → ℕ
  pub view_query : Bytes → V → Bytes
  pub view_has_query : Bytes → V → Bool
  pub view_cookie : Bytes → V → Bytes
  pub view_has_cookie : Bytes → V → Bool
  pub view_form_field : Bytes → ℤ → V → Bytes
  pub view_form_field_count : Bytes → V → ℤ
  pub view_has_form_field : Bytes → V → Bool
  pub view_file_data : Bytes → ℤ → V → Bytes
  pub view_file_count : Bytes → V → ℤ
  pub view_has_file : Bytes → V → Bool
  pub view_file_name : Bytes → ℤ → V → Bytes
  pub view_file_type : Bytes → ℤ → V → Bytes
  pub view_queries : V → List (Bytes × Bytes)
  pub view_cookies : V → List (Bytes × Bytes)
  pub view_form_field_list : V → List Bytes
  pub view_file_list : V → List Bytes
  pub view_has_files : V → Bool

pub record Request {ℓ} (Q V : Type ℓ) : Type ℓ where
  pub fcgi_request : Q
  pub http_request : LazyInitialized V

module _ {ℓ} {Q V : Type ℓ} (fcgi : FcgiRequest Q) (http : RequestView V) where
  -- fcgiRequest().hasParam(name) ? fcgiRequest().param(name) : std::string_view{}
  unfoldable pub param_or_empty : Bytes → Q → Bytes
  param_or_empty name q = if fcgi.has_param name q then fcgi.param name q else []

  -- The initializer of httpRequest_.
  unfoldable pub initializer : Q → Unit {0} → V
  unfolding param_or_empty
  initializer q _ =
      http.request_view (param_or_empty (text "REQUEST_METHOD") q)
        (param_or_empty (text "REMOTE_ADDR") q) (param_or_empty (text "HTTP_HOST") q)
        (param_or_empty (text "REQUEST_URI") q) (param_or_empty (text "QUERY_STRING") q)
        (param_or_empty (text "HTTP_COOKIE") q) (param_or_empty (text "CONTENT_TYPE") q)
        (fcgi.std_in q)

  unfoldable pub make_request : Q → Request Q V
  make_request q = record { fcgi_request = q; http_request = Lazy.uninitialized }

  -- httpRequest(), and what an accessor asks of it.
  unfoldable pub ask {κ} : {A : Type κ} → (V → A) → Request Q V → A × Request Q V
  unfolding Lazy.get
  ask f r =
      let (view, stored) = Lazy.get (initializer r.fcgi_request) r.http_request in
      (f view, record r { http_request = stored })

  unfoldable pub fcgi_param : Bytes → Request Q V → Bytes
  fcgi_param name r = fcgi.param name r.fcgi_request

  unfoldable pub has_fcgi_param : Bytes → Request Q V → Bool
  has_fcgi_param name r = fcgi.has_param name r.fcgi_request

  unfoldable pub fcgi_params : Request Q V → List (Bytes × Bytes)
  fcgi_params r = fcgi.params r.fcgi_request

  unfoldable pub fcgi_std_in : Request Q V → Bytes
  fcgi_std_in r = fcgi.std_in r.fcgi_request

  abbrev pub ip_address : Request Q V → Bytes × Request Q V
  ip_address = ask http.view_ip_address

  abbrev pub domain_name : Request Q V → Bytes × Request Q V
  domain_name = ask http.view_domain_name

  abbrev pub path : Request Q V → Bytes × Request Q V
  path = ask http.view_path

  abbrev pub method : Request Q V → ℕ × Request Q V
  method = ask http.view_method

  abbrev pub query : Bytes → Request Q V → Bytes × Request Q V
  query name = ask (http.view_query name)

  abbrev pub has_query : Bytes → Request Q V → Bool × Request Q V
  has_query name = ask (http.view_has_query name)

  abbrev pub cookie : Bytes → Request Q V → Bytes × Request Q V
  cookie name = ask (http.view_cookie name)

  abbrev pub has_cookie : Bytes → Request Q V → Bool × Request Q V
  has_cookie name = ask (http.view_has_cookie name)

  abbrev pub form_field : Bytes → ℤ → Request Q V → Bytes × Request Q V
  form_field name index = ask (http.view_form_field name index)

  abbrev pub form_field_count : Bytes → Request Q V → ℤ × Request Q V
  form_field_count name = ask (http.view_form_field_count name)

  abbrev pub has_form_field : Bytes → Request Q V → Bool × Request Q V
  has_form_field name = ask (http.view_has_form_field name)

  abbrev pub file_data : Bytes → ℤ → Request Q V → Bytes × Request Q V
  file_data name index = ask (http.view_file_data name index)

  abbrev pub file_count : Bytes → Request Q V → ℤ × Request Q V
  file_count name = ask (http.view_file_count name)

  abbrev pub has_file : Bytes → Request Q V → Bool × Request Q V
  has_file name = ask (http.view_has_file name)

  abbrev pub file_name : Bytes → ℤ → Request Q V → Bytes × Request Q V
  file_name name index = ask (http.view_file_name name index)

  abbrev pub file_type : Bytes → ℤ → Request Q V → Bytes × Request Q V
  file_type name index = ask (http.view_file_type name index)

  abbrev pub queries : Request Q V → List (Bytes × Bytes) × Request Q V
  queries = ask http.view_queries

  abbrev pub cookies : Request Q V → List (Bytes × Bytes) × Request Q V
  cookies = ask http.view_cookies

  abbrev pub form_field_list : Request Q V → List Bytes × Request Q V
  form_field_list = ask http.view_form_field_list

  abbrev pub file_list : Request Q V → List Bytes × Request Q V
  file_list = ask http.view_file_list

  abbrev pub has_files : Request Q V → Bool × Request Q V
  has_files = ask http.view_has_files
