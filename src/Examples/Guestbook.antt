-- ===== src/Examples/Guestbook.antt =====
-- examples/example_guestbook.cpp
pub mod State
pub mod Pages
pub mod Handlers
pub mod Escaping
pub mod Access
pub mod PlainText
pub mod Placeholders
