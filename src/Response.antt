-- ===== src/Response.antt =====
-- How a request is answered: the sender of one response, the Responder that user code holds, and
-- the wrapper round the user's request processor.
pub mod Sender
pub mod Processor
