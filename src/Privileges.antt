-- ===== src/Privileges.antt =====
-- Who may query what: sql/query_privileges.py, sql/services/privilege_service.py and the instances of
-- a user in sql/utils/resource_group.py.
pub mod State
pub mod Check
pub mod Grant
pub mod Modify
pub mod Limits
pub mod Verdicts
pub mod Granted
pub mod Callback
pub mod Complete
pub mod Composed
pub mod Tests
