-- ===== src/SchemaDiff.antt =====
-- sql/services/schema_diff_service.py: the difference of two schemas, and the statements that take one
-- to the other.
pub mod Floats
pub mod Columns
pub mod Indexes
pub mod Tables
pub mod Schemas
pub mod Quoting
pub mod Names
pub mod Same
pub mod Summary
pub mod Equal
pub mod Times
pub mod Tests
