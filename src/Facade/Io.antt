-- ===== src/Facade/Io.antt =====
-- IO (include/asyncgi/io.h, src/io.cpp), and the event handler that a Router copies out of it
-- (include/asyncgi/router.h).
use asyncgi.Common.{Option, none, some, List, [], ◌∷◌, Bytes, ℤ}
use asyncgi.IoService.Defs.{IoService, make_io_service}
use asyncgi.IoService.Defs
use asyncgi.Server.Service.{ServerService}
use asyncgi.Events.{ErrorEvent}
use asyncgi.Events.Proxy.{EventHandlerProxy, Passed, default_proxy, proxy_of, call_proxy}

pub record Io {ℓ} (H : Type ℓ) : Type ℓ where
  pub io_service : IoService
  pub event_handler : EventHandlerProxy H

module _ {ℓ} {H : Type ℓ} where
  -- IO(threadsNumber); `none` is an exception.
  unfoldable pub make_io : ℤ → Option (Io H)
  unfolding make_io_service
  make_io threads_number = elim (make_io_service threads_number) [
    | none ↦ none
    | some s ↦ some (record { io_service = s; event_handler = default_proxy })
  ]

  -- IO(threadsNumber, eventHandler)
  unfoldable pub make_io_with_handler : ℤ → Passed H → Option (Io H)
  unfolding make_io proxy_of
  make_io_with_handler threads_number passed = elim (make_io threads_number) [
    | none ↦ none
    | some io ↦ some (record io { event_handler = proxy_of passed })
  ]

  unfoldable pub run : Io H → Io H
  run io = record io { io_service = Defs.run io.io_service }

  unfoldable pub stop : Io H → Io H
  stop io = record io { io_service = Defs.stop io.io_service }

  -- The constructor of Router: its proxy is a copy.
  unfoldable pub router_event_handler : Io H → EventHandlerProxy H
  router_event_handler io = io.event_handler

  -- The constructor of Server, with the factories that it makes and ServerService over them
  abbrev pub make_server : Io H → ServerService
  make_server io = record {
    io_service = io.io_service;
    local_connection_processors = [];
    tcp_connection_processors = [];
    calls = [];
  }

-- A program with an IO and a Router, and the handlers that its user code keeps.
pub record Program {ℓ} (H : Type ℓ) : Type ℓ where
  pub io : Io H
  pub router : EventHandlerProxy H
  pub kept : List H

unfoldable pub start_program {ℓ} : {H : Type ℓ} → List H → Io H → Program H
unfolding router_event_handler
start_program kept io = record { io = io; router = router_event_handler io; kept = kept }

-- Who reports which event: the router, or any other part of the library, which refers to the proxy of
-- the IO.
pub data Report : Type 0 where
  by_io : ErrorEvent → Bytes → Report
  by_router : ErrorEvent → Bytes → Report

module _ {ℓ} {H : Type ℓ} (handle : H → ErrorEvent → Bytes → H) where
  unfoldable pub deliver : Report → Program H → Program H
  unfolding call_proxy
  deliver (by_io event message) p =
      let (handler, kept) = call_proxy handle event message (p.io.event_handler, p.kept) in
      record p { io = record p.io { event_handler = handler }; kept = kept }
  deliver (by_router event message) p =
      let (handler, kept) = call_proxy handle event message (p.router, p.kept) in
      record p { router = handler; kept = kept }

  abbrev pub deliver_all : List Report → Program H → Program H
  deliver_all [] p = p
  deliver_all (r ∷ rest) p = deliver_all rest (deliver r p)

  -- A handler after the events of some reports.
  abbrev pub handle_all : List Report → H → H
  handle_all [] h = h
  handle_all (by_io event message ∷ rest) h = handle_all rest (handle h event message)
  handle_all (by_router event message ∷ rest) h = handle_all rest (handle h event message)

abbrev pub io_reports : List Report → List Report
io_reports [] = []
io_reports (by_io event message ∷ rest) = by_io event message ∷ io_reports rest
io_reports (by_router event message ∷ rest) = io_reports rest

abbrev pub router_reports : List Report → List Report
router_reports [] = []
router_reports (by_io event message ∷ rest) = router_reports rest
router_reports (by_router event message ∷ rest) = by_router event message ∷ router_reports rest
