-- ===== src/Events.antt =====
-- include/asyncgi/events.h, and the error codes that asio hands to a
-- completion handler (src/asio_error.h).
pub mod Proxy
use asyncgi.Common.{Bool, Bytes}

pub data ErrorEvent : Type 0 where
  connection_error : ErrorEvent
  socket_read_error : ErrorEvent
  socket_write_error : ErrorEvent
  socket_close_error : ErrorEvent
  request_processing_error : ErrorEvent
  route_parameters_error : ErrorEvent

-- A set error code: whether its value is asio::error::operation_aborted, and its message().
pub record AsioError : Type 0 where
  pub is_operation_aborted : Bool
  pub message : Bytes
