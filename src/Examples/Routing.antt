-- ===== src/Examples/Routing.antt =====
-- The routes of asyncgi::Router, and what its base class, whaleroute's RequestRouter, does with them.
use asyncgi.Common.{
  ◌≡◌, refl, ap, ◌∙◌, inl, inr, Bool, true, false, Option, none, some, List, [], ◌∷◌, Bool-cases,
  Option-cases, Bytes, All,
}
use asyncgi.Examples.Http.{Response, status, Asked}

-- The first argument of route(): a text, a regular expression, or none.
pub data RoutePath : Type 0 where
  exact : Bytes → RoutePath
  rx : Bytes → RoutePath
  anywhere : RoutePath

-- A request under way: the route context, and the state that the program shares between requests.
pub record Visit {ℓ κ} (C : Type ℓ) (S : Type κ) : Type (ℓ ⊔ κ) where
  pub context : C
  pub state : S

-- One call of route() with its process() or set(). `matches` is what the RouteMatchers of its other
-- arguments say. A processor gets the parameters of the path, and returns a response, or an empty
-- optional; it may change the route context `C` and the program's state `S`.
pub record Route {ℓ κ μ} (R : Type ℓ) (C : Type κ) (S : Type μ) : Type (ℓ ⊔ κ ⊔ μ) where
  pub route_path : RoutePath
  pub matches : R → C → Bool
  pub process : List Bytes → R → Visit C S → Option Response × Visit C S

-- RequestRouter of whaleroute, as README.md describes the router: the routes are tried in their order,
-- those whose path or matchers do not fit are passed over, and the first response that a processor
-- sends ends the processing. `match_path` gives the parameters of a path that
-- fits; which paths a text fits, with or without a slash at the end, is left open.
pub record RequestRouter {ℓ κ μ} (R : Type ℓ) (C : Type κ) (S : Type μ) (asked : Asked R)
    : Type (ℓ ⊔ κ ⊔ μ) where
  pub match_path : RoutePath → Bytes → Option (List Bytes)
  pub dispatch : List (Route R C S) → R → Visit C S → Response × S
  -- isRouteProcessingFinished of the router is false to the end: processUnmatchedRequest
  pub no_route : (r : R) (cs : Visit C S) → dispatch [] r cs ≡ (status 404, cs.state)
  pub other_path :
      (route : Route R C S) (rest : List (Route R C S)) (r : R) (cs : Visit C S)
      → match_path route.route_path (asked.path r) ≡ none
      → dispatch (route ∷ rest) r cs ≡ dispatch rest r cs
  pub no_match :
      (route : Route R C S) (rest : List (Route R C S)) (r : R) (cs : Visit C S)
      → route.matches r cs.context ≡ false
      → dispatch (route ∷ rest) r cs ≡ dispatch rest r cs
  pub no_response :
      (route : Route R C S) (rest : List (Route R C S)) (r : R) (cs cs' : Visit C S)
      (params : List Bytes)
      → match_path route.route_path (asked.path r) ≡ some params
      → route.matches r cs.context ≡ true
      → route.process params r cs ≡ (none, cs')
      → dispatch (route ∷ rest) r cs ≡ dispatch rest r cs'
  pub responds :
      (route : Route R C S) (rest : List (Route R C S)) (r : R) (cs cs' : Visit C S)
      (params : List Bytes) (response : Response)
      → match_path route.route_path (asked.path r) ≡ some params
      → route.matches r cs.context ≡ true
      → route.process params r cs ≡ (some response, cs')
      → dispatch (route ∷ rest) r cs ≡ (response, cs'.state)
  pub every_path : (path : Bytes) → match_path anywhere path ≡ some []

module _ {ℓ κ μ} {R : Type ℓ} {C : Type κ} {S : Type μ} {asked : Asked R}
    (router : RequestRouter R C S asked) where
  -- What the processors of the routes that match keep, a request keeps.
  pub dispatch-All :
      (P : Visit C S → Type 0) (routes : List (Route R C S)) (r : R) (cs : Visit C S)
      → All
          (λ (route : Route R C S).
            (params : List Bytes) (t : Visit C S)
            → route.matches r t.context ≡ true
            → P t
            → P (route.process params r t).1)
          routes
      → P cs
      → (c : C) × P (record { context = c; state = (router.dispatch routes r cs).1 })
  dispatch-All P [] r cs keeps h = rw (router.no_route r cs) (cs.context, h)
  dispatch-All P (route ∷ rest) r cs (keep, keeps) h =
      elim (Option-cases (router.match_path route.route_path (asked.path r))) [
        | inl e ↦ rw (router.other_path route rest r cs e) (dispatch-All P rest r cs keeps h)
        | inr (params, e) ↦ elim (Bool-cases (route.matches r cs.context)) [
          | inl m ↦
              let after = keep params cs m h in
              elim (Option-cases (route.process params r cs).0) [
                | inl quiet ↦
                    rw
                      (router.no_response route rest r cs (route.process params r cs).1 params e m
                        (ap (λ o. (o, (route.process params r cs).1)) quiet))
                      (dispatch-All P rest r (route.process params r cs).1 keeps after)
                | inr (response, sent) ↦
                    rw
                      (router.responds route rest r cs (route.process params r cs).1 params response
                        e m (ap (λ o. (o, (route.process params r cs).1)) sent))
                      ((route.process params r cs).1.context, after)
              ]
          | inr m ↦ rw (router.no_match route rest r cs m) (dispatch-All P rest r cs keeps h)
        ]
      ]

-- The dispatch that the laws describe, in one function.
module _ {ℓ κ μ} {R : Type ℓ} {C : Type κ} {S : Type μ} (asked : Asked R)
    (match_path : RoutePath → Bytes → Option (List Bytes)) where
  unfoldable pub run : List (Route R C S) → R → Visit C S → Response × S
  run [] r cs = (status 404, cs.state)
  run (route ∷ rest) r cs = elim (match_path route.route_path (asked.path r)) [
    | none ↦ run rest r cs
    | some params ↦ elim (route.matches r cs.context) [
      | false ↦ run rest r cs
      | true ↦ elim (route.process params r cs).0 [
        | none ↦ run rest r (route.process params r cs).1
        | some response ↦ (response, (route.process params r cs).1.state)
      ]
    ]
  ]

  -- It keeps the laws.
  unfoldable pub run_router :
      ((path : Bytes) → match_path anywhere path ≡ some []) → RequestRouter R C S asked
  unfolding run
  run_router every_law = record {
    match_path = match_path;
    dispatch = run;
    no_route = λ r cs. refl;
    other_path = λ route rest r cs e. rw (e, run) refl;
    no_match = λ route rest r cs m.
        elim (Option-cases (match_path route.route_path (asked.path r))) [
          | inl e ↦ rw (e, run) refl
          | inr (params, e) ↦ rw (e, m, run) refl
        ];
    no_response = λ route rest r cs cs' params e m p.
        rw (e, m, p, run) (ap (λ (out : Option Response × Visit C S). run rest r out.1) p);
    responds = λ route rest r cs cs' params response e m p.
        rw (e, m, p, run) (ap (λ (out : Option Response × Visit C S). (response, out.1.state)) p);
    every_path = every_law;
  }

module _ {ℓ κ μ} {R : Type ℓ} {C : Type κ} {S : Type μ} {asked : Asked R}
    (router : RequestRouter R C S asked) where
  -- The laws leave a router no choice.
  pub dispatch-run :
      (routes : List (Route R C S)) (r : R) (cs : Visit C S)
      → router.dispatch routes r cs ≡ run asked router.match_path routes r cs
  unfolding run
  dispatch-run [] r cs = router.no_route r cs
  dispatch-run (route ∷ rest) r cs =
      elim (Option-cases (router.match_path route.route_path (asked.path r))) [
        | inl e ↦ router.other_path route rest r cs e ∙ rw (e, run) (dispatch-run rest r cs)
        | inr (params, e) ↦ elim (Bool-cases (route.matches r cs.context)) [
          | inl m ↦ elim (Option-cases (route.process params r cs).0) [
            | inl quiet ↦
                router.no_response route rest r cs (route.process params r cs).1 params e m
                  (ap (λ o. (o, (route.process params r cs).1)) quiet)
                ∙ rw (e, m, quiet, run) (dispatch-run rest r (route.process params r cs).1)
            | inr (response, sent) ↦
                router.responds route rest r cs (route.process params r cs).1 params response e m
                  (ap (λ o. (o, (route.process params r cs).1)) sent)
                ∙ rw (e, m, sent, run) refl
          ]
          | inr m ↦ router.no_match route rest r cs m ∙ rw (e, m, run) (dispatch-run rest r cs)
        ]
      ]
