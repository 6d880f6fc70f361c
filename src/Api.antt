-- ===== src/Api.antt =====
-- src/app/api: transport. Each handler maps what a service returns or raises to a response.
pub mod Granted
pub mod Documented
pub mod Requests
pub mod AgentRuns
