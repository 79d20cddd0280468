-- ===== src/Online.antt =====
-- The SQL workflow once it is reviewed: sql/utils/sql_review.py and sql/utils/execute_sql.py.
pub mod State
pub mod Access
pub mod Execute
pub mod Groups
pub mod Rights
pub mod Effects
pub mod Once
pub mod Tests
