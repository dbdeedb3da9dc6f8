-- ===== src/IoService.antt =====
-- src/ioservice.h and src/ioservice.cpp: a pool of asio::io_context objects, one to a thread.
pub mod Defs
pub mod Rotation
pub mod Threads
pub mod Affinity
