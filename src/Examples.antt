-- ===== src/Examples.antt =====
-- The programs under examples/: request processors and the routes that they are registered for.
pub mod Text
pub mod Regex
pub mod Vector
pub mod Http
pub mod Routing
pub mod Guestbook
pub mod Numbers
pub mod PlainBook
pub mod NumberedBook
pub mod RouteParams
pub mod Login
pub mod Pages
pub mod Delayed
pub mod Awaiting
pub mod Forwarding
