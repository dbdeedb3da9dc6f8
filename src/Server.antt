-- ===== src/Server.antt =====
-- Listening for connections: src/server.cpp, src/serverservice.cpp, src/connectionlistener.cpp,
-- src/connectionlistenerfactory.cpp and src/connectionfactory.cpp.
pub mod Listener
pub mod Accepting
pub mod Service
pub mod Ports
pub mod Affinity
