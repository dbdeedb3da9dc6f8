-- ===== src/Tests/Logins.antt =====
-- examples/example_route_context.cpp and examples/example_route_matcher.cpp at concrete inputs.
use asyncgi.Examples.Routing.{run_router, run}
use asyncgi.Common.{◌≡◌, refl, [], text}
use asyncgi.Tests.Requests.{Sent, asked, router}
use asyncgi.Examples.Http.{redirect, found_redirect, post}
use asyncgi.Examples.Login.Context.{context_routes, new_context}
use asyncgi.Examples.Login.Matchers.{matcher_routes}
use asyncgi.Examples.Login.Equivalence.{essence, same_logins}

abbrev admin_logs_in : Sent
admin_logs_in = record {
  sent_path = text "/login";
  sent_method = post;
  admin_id = text "ADMIN_SECRET";
  fields = [];
}

logins_run :
    (router.dispatch
        (context_routes asked)
        admin_logs_in
        (record { context = new_context; state = tt })
      ≡ (redirect (text "/") [], tt))
    × (router.dispatch
          (matcher_routes asked)
          admin_logs_in
          (record { context = new_context; state = tt })
        ≡ (found_redirect (text "/"), tt))
unfolding run_router run context_routes matcher_routes
logins_run = (refl, refl)

same_logins_example :
    essence
      (router.dispatch
        (context_routes asked)
        admin_logs_in
        (record { context = new_context; state = tt })).0
    ≡ essence
        (router.dispatch
          (matcher_routes asked)
          admin_logs_in
          (record { context = new_context; state = tt })).0
unfolding run_router
same_logins_example = same_logins asked router admin_logs_in [] refl
