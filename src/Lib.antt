-- ===== src/Lib.antt =====
-- asyncgi: a C++ library for FastCGI applications. The program's parts, and the files that model them:
--
--   Connection        src/connection.h, src/connection.cpp, with the Responder of src/response.cpp and
--                     the context of src/responsecontext.cpp: one accepted connection. Connection/Defs
--                     has its state and its write path (sendData, onBytesWritten, disconnect, close,
--                     process), Connection/Requests processRequest and the Responder.
--                     Connection/Session runs a connection from its constructor on, with a
--                     specification of what it writes (Promise), with user code that returns its
--                     responses (Pages), and with failed reads and writes (Faults).
--   Response          src/responsesender.cpp and include/asyncgi/requestprocessor.h: the sender of one
--                     response, and the user's code as a script of the calls that it makes.
--   ClientConnection  src/clientconnection.h, src/clientconnection.cpp: one connection to another
--                     application, with a write path of its own, and the timeout of its
--                     request (Timeouts); and its destruction with operations pending
--                     (Lifetime).
--   Net               what these two have in common: the fields of the write path and the log of calls
--                     (Net/Outbox), the path as an interface of operations and laws that both
--                     implement (Net/Transport; Connection/Transport and ClientConnection/Transport),
--                     and the connection together with the socket below it as a relation of steps
--                     (Net/Link). What Net/Link has of the interface, the two Order modules state of
--                     the two implementations.
--   ClientService     src/clientservice.h, src/clientservice.cpp: the four overloads of makeRequest and
--                     the handler of their responses, and a relation of steps over them (Histories);
--                     how long it keeps its connections (Connections).
--   IoService         src/ioservice.h, src/ioservice.cpp: the pool of io_context objects, and the
--                     threads that run them (Threads, Affinity).
--   Timer             src/timerservice.cpp (Service), src/timerprovider.cpp (Provider) and waitFuture of
--                     include/asyncgi/timer.h (Future).
--   AsioDispatcher    src/asiodispatcherservice.cpp and src/taskcontext.cpp: posted tasks, and the
--                     contexts that keep the request queue stopped.
--   Server            src/connectionlistener.cpp and src/connectionfactory.cpp (Listener),
--                     src/serverservice.cpp, src/connectionlistenerfactory.cpp and src/server.cpp
--                     (Service); and the threads of its connections (Affinity).
--   Request           src/request.cpp and include/asyncgi/detail/lazyinitialized.h.
--   Router            include/asyncgi/router.h: what Router overrides of whaleroute's RequestRouter
--                     (Overrides), and the queue that it makes for a request (Queues), with
--                     src/routeresponsecontextaccessor.cpp.
--   Facade            src/timer.cpp, src/client.cpp, src/asiodispatcher.cpp and src/serviceholder.cpp:
--                     the classes that user code makes of an IO (Own) or of a Responder (Isolation);
--                     and src/io.cpp itself (Io), with what its event handler gets (Delivery).
--   Examples          programs under examples/: the guest book of example_guestbook.cpp (Guestbook: its
--                     state, pages, request processors and routes), those of example_router.cpp
--                     (PlainBook), of example_route_params_user_defined_types.cpp (NumberedBook,
--                     Numbers, with the removal of messages in Vector) and of
--                     example_route_params.cpp (RouteParams), the logins of
--                     example_route_context.cpp and example_route_matcher.cpp (Login), and the pages of
--                     example_response_dispatching_asio_task.cpp (Delayed), of
--                     example_response_wait_future.cpp (Awaiting) and of
--                     example_client_in_processor.cpp (Forwarding), and the smallest ones (Pages).
--                     Text and Regex are what they use of the C++ library, Routing is the router that
--                     their routes are registered with, and Http what they use of hot_teacup.
--   Common, Events    shared helpers; include/asyncgi/events.h, src/eventhandlerproxy.cpp (Proxy).
--   Tests             the theorems at concrete inputs, and runs.
--
-- How they interact: a listener of the server makes a connection on the io_context that nextIO returns,
-- and the connection reads a request, hands it with a Responder to the user's code or to a router,
-- and writes the response. The Responder reaches the ResponseContext of its request through a weak
-- reference, and through it the client, the timers and the dispatcher of the connection, which stop
-- and launch the request queue of a router while they work.
--
-- How the source is read: a class is a record, a member function is a function on that record, a
-- completion handler is a function too, and a step of a relation where its order is open. Calls that
-- leave the program (sockets, timers, queues, the event handler, user handlers) are appended to a log
-- in the record, in their order. Objects that others refer to are numbered as they are made. Text and
-- data are lists of bytes. What a function throws is a result or a flag.
--
-- Bounds: std::size_t has 64 bits, and its additions and subtractions wrap; a step of Net/Link that
-- sends data has what waits and the data together below 2 ^ 64 bytes, and a session of Connection/Session
-- has all its answers together below that. ioIndex_ wraps at 2 ^ 64. A port
-- has 16 bits. The one loop on fuel is std::to_string (Router/Decimal), whose fuel is one more than the
-- number, which has no more digits than that. The examples cast sizes to int; what is stated of that has
-- fewer than 2 ^ 31 messages.
--
-- Parameters: asio (bind, make_address, the errors of shutdown and close), fcgi_responder (the parsing
-- of requests, and fcgi::Response, of which three laws are assumed: setting its data or error message
-- keeps it valid, and sending it makes it invalid), hot_teacup (requests, responses, views),
-- whaleroute's RequestRouter (Examples/Routing, with the laws that README.md describes: the routes are
-- tried in their order, those whose path or matchers do not fit are passed over, and the first response
-- ends the processing; which paths a text or a pattern fits, and how an int parameter of a
-- path is read, is left open), and the
-- user's code. Tests/Samples and Tests/Requests have concrete ones for which the laws hold.
--
-- Not modelled: the matching of routes, which is whaleroute's; Timer::stopSignal by itself, whose function
-- holds a raw pointer to a service (waitFuture, its one caller, calls stop() of its timer in its place); destructors, but that of ClientConnection;
-- the set-up of the server in the examples' main(); and example_client.cpp and
-- example_asio_dispatcher.cpp, which are main() alone.
mod Common
pub mod Events
pub mod Net
pub mod Response
pub mod Connection
pub mod ClientConnection
pub mod IoService
pub mod Timer
pub mod AsioDispatcher
pub mod Server
pub mod Request
pub mod Router
pub mod ClientService
pub mod Facade
pub mod Examples
mod Tests
