-- ===== src/Connection.antt =====
-- src/connection.h and src/connection.cpp: one accepted FastCGI connection.
pub mod Defs
pub mod Transport
pub mod Order
pub mod Requests
pub mod Answers
pub mod Responders
pub mod Failures
pub mod Session
