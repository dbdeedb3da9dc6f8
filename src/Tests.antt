-- ===== src/Tests.antt =====
-- The theorems at concrete inputs, and runs of the model.
mod Samples
mod Connection
mod Sessions
mod Client
mod Io
mod Timers
mod Dispatch
mod Listening
mod Routing
mod Clients
mod Facades
mod Requests
mod Guestbook
mod Books
mod Logins
mod Pages
mod Delayed
mod Awaiting
mod Forwarding
