-- ===== src/Services.antt =====
-- src/app/services: the use cases and business rules. Services never commit or roll back.
pub mod Validation
pub mod Users
pub mod Licences
pub mod Assignments
pub mod Isolation
pub mod Refinement
pub mod Consistency
pub mod Audit
pub mod Escapes
pub mod Guarantees
