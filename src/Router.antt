-- ===== src/Router.antt =====
-- include/asyncgi/router.h, src/routeresponsecontextaccessor.cpp and
-- ResponseContext::setRequestProcessorQueue. whaleroute's RequestRouter, from which Router derives,
-- calls the overrides; its queues are known by numbers.
pub mod Overrides
pub mod Decimal
pub mod Fallbacks
pub mod Queues
