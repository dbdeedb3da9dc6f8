-- ===== src/AsioDispatcher.antt =====
-- src/asiodispatcherservice.cpp and src/taskcontext.cpp: tasks posted to asio, and the request queue
-- that waits for them.
pub mod Defs
pub mod Histories
pub mod Balance
