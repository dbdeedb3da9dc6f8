-- ===== src/Facade/Delivery.antt =====
-- Which events an event handler of the user gets (include/asyncgi/detail/eventhandlerproxy.h, src/io.cpp).
use asyncgi.Events.{ErrorEvent}
use asyncgi.Common.{
  ◌≡◌, refl, ap, ◌∙◌, inl, inr, some, List, [], ◌∷◌, ◌++◌, arith, Option-cases, Bytes, length,
  update-middle, ℤ,
}
use asyncgi.Events.Proxy.{
  EventHandlerProxy, Passed, lvalue, rvalue, proxy_of, by_reference, stored, call_proxy,
  ref_wrapper_or_rvalue,
}
use asyncgi.Facade.Io.{
  Io, Program, Report, by_io, by_router, make_io, make_io_with_handler, start_program, deliver,
  deliver_all, handle_all, io_reports, router_reports, router_event_handler,
}

module _ {ℓ} {H : Type ℓ} where
  made-handler :
      (threads_number : ℤ) (passed : Passed H) (io : Io H)
      → make_io_with_handler threads_number passed ≡ some io
      → io.event_handler ≡ proxy_of passed
  unfolding make_io_with_handler
  made-handler threads_number passed io h = elim (Option-cases (make_io {H = H} threads_number)) [
    | inl e ↦ ground arith
    | inr (made, e) ↦ ground arith
  ]

module _ {ℓ} {H : Type ℓ} (handle : H → ErrorEvent → Bytes → H) where
  call_proxy-by_reference :
      (event : ErrorEvent) (message : Bytes) (before after : List H) (h : H)
      (q : EventHandlerProxy H) (kept : List H)
      → q.error_handler ≡ by_reference (length before)
      → kept ≡ before ++ h ∷ after
      → call_proxy handle event message (q, kept) ≡ (q, before ++ handle h event message ∷ after)
  unfolding call_proxy
  call_proxy-by_reference event message before after h q kept refers e =
      simp (call_proxy, refers, e, update-middle)

  call_proxy-stored :
      (event : ErrorEvent) (message : Bytes) (h : H) (q : EventHandlerProxy H) (kept : List H)
      → q.error_handler ≡ stored h
      → call_proxy handle event message (q, kept)
        ≡ (record { error_handler = stored (handle h event message) }, kept)
  unfolding call_proxy
  call_proxy-stored event message h q kept e = rw e refl

  deliver_all-by_reference :
      (reports : List Report) (before after : List H) (h : H) (p : Program H)
      → p.io.event_handler.error_handler ≡ by_reference (length before)
      → p.router.error_handler ≡ by_reference (length before)
      → p.kept ≡ before ++ h ∷ after
      → (deliver_all handle reports p).kept ≡ before ++ handle_all handle reports h ∷ after
  unfolding deliver call_proxy
  deliver_all-by_reference [] before after h p io router kept = kept
  deliver_all-by_reference (by_io event message ∷ rest) before after h p io router kept =
      let called =
        call_proxy-by_reference event message before after h p.io.event_handler p.kept io kept in
      deliver_all-by_reference rest before after (handle h event message) _
        (ap (λ (out : EventHandlerProxy H × List H). out.0.error_handler) called ∙ io) router
        (ap (λ (out : EventHandlerProxy H × List H). out.1) called)
  deliver_all-by_reference (by_router event message ∷ rest) before after h p io router kept =
      let called =
        call_proxy-by_reference event message before after h p.router p.kept router kept in
      deliver_all-by_reference rest before after (handle h event message) _ io
        (ap (λ (out : EventHandlerProxy H × List H). out.0.error_handler) called ∙ router)
        (ap (λ (out : EventHandlerProxy H × List H). out.1) called)

  deliver_all-stored :
      (reports : List Report) (h k : H) (p : Program H)
      → p.io.event_handler.error_handler ≡ stored h
      → p.router.error_handler ≡ stored k
      → ((deliver_all handle reports p).io.event_handler.error_handler
          ≡ stored (handle_all handle (io_reports reports) h))
        × ((deliver_all handle reports p).router.error_handler
            ≡ stored (handle_all handle (router_reports reports) k))
        × ((deliver_all handle reports p).kept ≡ p.kept)
  unfolding deliver call_proxy
  deliver_all-stored [] h k p io router = (io, router, refl)
  deliver_all-stored (by_io event message ∷ rest) h k p io router =
      let called = call_proxy-stored event message h p.io.event_handler p.kept io in
      let (io', router', kept') =
        deliver_all-stored rest (handle h event message) k _
          (ap (λ (out : EventHandlerProxy H × List H). out.0.error_handler) called) router in
      (io', router', kept' ∙ ap (λ (out : EventHandlerProxy H × List H). out.1) called)
  deliver_all-stored (by_router event message ∷ rest) h k p io router =
      let called = call_proxy-stored event message k p.router p.kept router in
      let (io', router', kept') =
        deliver_all-stored rest h (handle k event message) _ io
          (ap (λ (out : EventHandlerProxy H × List H). out.0.error_handler) called) in
      (io', router', kept' ∙ ap (λ (out : EventHandlerProxy H × List H). out.1) called)

  -- Of a program that was given an event handler, whatever parts of the library report whatever events
  -- in whatever order. A handler that was passed as an lvalue gets all of them, in their order, and no
  -- other handler that user code keeps gets any. A handler that was passed as an rvalue is kept twice: the
  -- one of the IO gets all events but the router's, the copy of the Router gets the router's only, each in
  -- their order, and user code's own handlers get none.
  pub handlers_get_their_events :
      (threads_number : ℤ) (reports : List Report) (before after : List H) (h : H)
      (shared own : Io H)
      → make_io_with_handler threads_number (lvalue (length before)) ≡ some shared
      → make_io_with_handler threads_number (rvalue h) ≡ some own
      → ((deliver_all handle reports (start_program (before ++ h ∷ after) shared)).kept
          ≡ before ++ handle_all handle reports h ∷ after)
        × ((deliver_all handle reports (start_program before own)).io.event_handler.error_handler
            ≡ stored (handle_all handle (io_reports reports) h))
        × ((deliver_all handle reports (start_program before own)).router.error_handler
            ≡ stored (handle_all handle (router_reports reports) h))
        × ((deliver_all handle reports (start_program before own)).kept ≡ before)
  unfolding start_program router_event_handler proxy_of ref_wrapper_or_rvalue
  handlers_get_their_events threads_number reports before after h shared own passed moved =
      let by_ref = made-handler threads_number (lvalue (length before)) shared passed in
      let by_value = made-handler threads_number (rvalue h) own moved in
      let (io, router, kept) =
        deliver_all-stored reports h h (start_program before own)
          (ap (λ q. q.error_handler) by_value) (ap (λ q. q.error_handler) by_value) in
      (
        deliver_all-by_reference reports before after h (start_program (before ++ h ∷ after) shared)
            (ap (λ q. q.error_handler) by_ref) (ap (λ q. q.error_handler) by_ref) refl,
        io,
        router,
        kept,
      )
