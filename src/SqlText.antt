-- ===== src/SqlText.antt =====
-- sql/utils/sql_utils.py: the text handling that the checks of SQL rest on.
pub mod Comments
pub mod Tests
