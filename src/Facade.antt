-- ===== src/Facade.antt =====
-- The classes that user code makes of an IO or of a Responder: src/timer.cpp, src/client.cpp and
-- src/asiodispatcher.cpp, over src/serviceholder.cpp; and IO itself, src/io.cpp.
pub mod Holder
pub mod Defs
pub mod Isolation
pub mod Io
pub mod Delivery
pub mod Own
