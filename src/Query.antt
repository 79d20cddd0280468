-- ===== src/Query.antt =====
-- sql/services/sqlquery_service.py and sql/services/querylog_service.py: queries and their log.
pub mod State
pub mod Service
pub mod Asked
pub mod Released
pub mod Tests
