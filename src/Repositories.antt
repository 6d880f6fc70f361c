-- ===== src/Repositories.antt =====
-- src/app/repositories: the queries and inserts of each table. An insert is flushed at once, so the
-- constraints of the table are tested there: the unique ones and the foreign keys.
pub mod Users
pub mod Licences
pub mod Assignments
pub mod AuditEvents
pub mod AgentRuns
pub mod ModelCalls
pub mod ToolCalls
