-- ===== src/Audit.antt =====
-- sql/utils/workflow_audit.py: how a workflow is reviewed.
pub mod State
pub mod Review
pub mod Init
pub mod Lookup
pub mod Create
pub mod CanOperate
pub mod Operate
pub mod Permissions
pub mod Complete
pub mod Chain
pub mod Passes
pub mod Progress
pub mod Ends
pub mod Outcomes
pub mod Steps
pub mod Keeps
pub mod Flow
pub mod Submit
pub mod Nodes
pub mod Readable
pub mod Legacy
pub mod Repeats
pub mod Tests
pub mod SubmitTests
