-- ===== src/Tests/Requests.antt =====
-- Requests, and a router that keeps the laws of Examples/Routing, for the examples' programs.
use asyncgi.Common.{
  refl, false, Option, none, some, List, [], ◌∷◌, if◌then◌else◌, Bytes, text, is_empty,
}
use asyncgi.Examples.Http.{Asked, RequestMethod}
use asyncgi.Examples.Text.{equal, starts_with, drop}
use asyncgi.Examples.Routing.{RoutePath, exact, rx, anywhere, RequestRouter, run_router}

-- What a browser sends: a path, a cookie `admin_id`, and form fields.
pub record Sent : Type 0 where
  pub sent_path : Bytes
  pub sent_method : RequestMethod
  pub admin_id : Bytes
  pub fields : List (Bytes × Bytes)

abbrev pub field : Bytes → List (Bytes × Bytes) → Bytes
field name [] = []
field name ((n, v) ∷ rest) = if equal name n then v else field name rest

abbrev pub asked : Asked Sent
asked = record {
  path = λ r. r.sent_path;
  method = λ r. r.sent_method;
  query = λ name r. [];
  has_query = λ name r. false;
  cookie = λ name r. if equal name (text "admin_id") then r.admin_id else [];
  form_field = λ name r. field name r.fields;
}

-- The two patterns of the examples.
abbrev pub match_path : RoutePath → Bytes → Option (List Bytes)
match_path (exact p) path = if equal p path then some [] else none
match_path (rx pattern) path =
    if equal pattern (text ".*")
    then some []
    else if starts_with (text "/delete/") path
    then (if is_empty (drop 8 path) then none else some (drop 8 path ∷ []))
    else none
match_path anywhere path = some []

abbrev pub router {κ μ} : {C : Type κ} {S : Type μ} → RequestRouter Sent C S asked
router = run_router asked match_path (λ path. refl)
