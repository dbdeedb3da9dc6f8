-- ===== src/Request.antt =====
-- src/request.cpp, include/asyncgi/request.h and include/asyncgi/detail/lazyinitialized.h
pub mod Lazy
pub mod View
pub mod Accesses
