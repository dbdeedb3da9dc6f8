-- ===== src/ClientService.antt =====
-- src/clientservice.h and src/clientservice.cpp: requests to other FastCGI applications.
pub mod Defs
pub mod Requests
pub mod Counts
pub mod Balance
pub mod Steps
pub mod Histories
pub mod Connections
