-- ===== src/Agent/Executor.antt =====
-- src/app/agent/executor.py: runs an agent's steps, each in its own transactions.
pub mod Runs
pub mod Details
pub mod Extraction
pub mod Resolution
pub mod Admission
pub mod ToolCalls
pub mod Decide
pub mod Lifecycle
