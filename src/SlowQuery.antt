-- ===== src/SlowQuery.antt =====
-- The collection of slow queries: sql/collectors/base.py and sql/collectors/redis_collector.py.
pub mod Collector
pub mod Again
pub mod Tests
