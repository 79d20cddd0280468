-- ===== src/Api.antt =====
-- sql_api/api_workflow.py: the requests on workflows, which join the review (Audit), the execution
-- (Online) and the granting of privileges (Privileges).
pub mod State
pub mod Review
pub mod Auditor
pub mod Actors
pub mod Cancel
pub mod Late
pub mod Execute
pub mod Modes
pub mod Execution
pub mod Once
pub mod Tests
