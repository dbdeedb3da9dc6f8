-- ===== src/Request/Accesses.antt =====
-- The accessors of a request, in any order.
use asyncgi.Request.View.{FcgiRequest, RequestView, Request, ask, initializer, make_request}
use asyncgi.Common.{
  String, ◌≡◌, refl, sym, ap, subst, ◌∙◌, inl, inr, some, List, [], ◌∷◌, if◌then◌else◌, Bytes, text,
}
use asyncgi.Request.Lazy.{LazyInitialized, IsCoherent, get_lem}

module _ {ℓ} {Q V : Type ℓ} (fcgi : FcgiRequest Q) (http : RequestView V) where
  -- The view was asked some questions already.
  unfoldable pub ask_each : List (V → Bytes) → Request Q V → Request Q V
  ask_each [] r = r
  ask_each (f ∷ rest) r = ask_each rest (ask fcgi http f r).1

  ask-IsCoherent {κ} :
      {A : Type κ} (f : V → A) (r : Request Q V)
      → IsCoherent (initializer fcgi http r.fcgi_request) r.http_request
      → ((ask fcgi http f r).0 ≡ f (initializer fcgi http r.fcgi_request tt))
        × ((ask fcgi http f r).1 ≡ record r {
          http_request = record {
            value = some (initializer fcgi http r.fcgi_request tt);
            runs = 1;
          };
        })
  unfolding ask
  ask-IsCoherent f r h =
      let (v, l) = get_lem (initializer fcgi http r.fcgi_request) r.http_request h in
      (ap f v, ap (λ (x : LazyInitialized V). record r { http_request = x }) l)

  ask_each-IsCoherent :
      (asked : List (V → Bytes)) (r : Request Q V)
      → IsCoherent (initializer fcgi http r.fcgi_request) r.http_request
      → ((ask_each asked r).fcgi_request ≡ r.fcgi_request)
        × IsCoherent (initializer fcgi http r.fcgi_request) (ask_each asked r).http_request
  unfolding ask_each
  ask_each-IsCoherent [] r h = (refl, h)
  ask_each-IsCoherent (f ∷ rest) r h =
      subst
        (λ (t : Request Q V).
          ((ask_each rest t).fcgi_request ≡ r.fcgi_request)
          × IsCoherent (initializer fcgi http r.fcgi_request) (ask_each rest t).http_request)
        (sym (ask-IsCoherent f r h).1) (ask_each-IsCoherent rest _ (inr refl))

  -- A parameter of the FastCGI request, or the empty text where it has none of that name.
  abbrev pub header : Q → String → Bytes
  header q name = if fcgi.has_param (text name) q then fcgi.param (text name) q else []

  -- Of a new request: whatever it was asked before, an accessor answers from the view of these seven
  -- parameters and the body, and the view has been made once.
  pub accessors_agree {κ} :
      {A : Type κ} (q : Q) (asked : List (V → Bytes)) (f : V → A)
      → ((ask fcgi http f (ask_each asked (make_request fcgi http q))).0
          ≡ f (
              http.request_view
                (header q "REQUEST_METHOD")
                (header q "REMOTE_ADDR")
                (header q "HTTP_HOST")
                (header q "REQUEST_URI")
                (header q "QUERY_STRING")
                (header q "HTTP_COOKIE")
                (header q "CONTENT_TYPE")
                (fcgi.std_in q)))
        × ((ask fcgi http f (ask_each asked (make_request fcgi http q))).1.http_request.runs ≡ 1)
  unfolding make_request initializer
  accessors_agree q asked f =
      let (same, coherent) = ask_each-IsCoherent asked (make_request fcgi http q) (inl refl) in
      let (answer, stored) = ask-IsCoherent f (ask_each asked (make_request fcgi http q)) (
        subst
          (λ (x : Q).
            IsCoherent (initializer fcgi http x)
              (ask_each asked (make_request fcgi http q)).http_request)
          (sym same) coherent) in
      (
        answer ∙ ap (λ (x : Q). f (initializer fcgi http x tt)) same,
        ap (λ (r : Request Q V). r.http_request.runs) stored,
      )
