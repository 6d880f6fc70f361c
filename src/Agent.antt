-- ===== src/Agent.antt =====
-- src/app/agent: agent execution on top of the application's services.
pub mod Tools
pub mod Policy
pub mod Resolver
pub mod Verifier
pub mod Decision
pub mod Planner
pub mod ModelRequests
pub mod PydanticAi
pub mod Executor
pub mod History
pub mod Reads
pub mod Plans
pub mod Shown
pub mod Raises
pub mod Isolation
pub mod Refinement
pub mod Consistency
pub mod Admission
pub mod Resolutions
pub mod Completion
pub mod Guarantees
