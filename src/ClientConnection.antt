-- ===== src/ClientConnection.antt =====
-- src/clientconnection.h and src/clientconnection.cpp: one connection to another FastCGI application.
pub mod Defs
pub mod Transport
pub mod Order
pub mod Failures
pub mod Timeouts
pub mod Lifetime
