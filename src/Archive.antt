-- ===== src/Archive.antt =====
-- Archive jobs: the requests of sql_api/api_archiver.py and the tasks of sql/archiver.py.
pub mod Review
pub mod Outcome
pub mod Rearm
pub mod Tests
