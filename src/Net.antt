-- ===== src/Net.antt =====
-- What the two ends of a connection share: the calls that they make on a socket, the fields of
-- their write path, and that path seen as an interface.
pub mod Outbox
pub mod Transport
pub mod Link
