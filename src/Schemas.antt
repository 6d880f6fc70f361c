-- ===== src/Schemas.antt =====
-- src/app/schemas: the contracts of the agent layer and of the HTTP interface.
pub mod Agent
pub mod AgentRuns
