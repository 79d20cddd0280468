-- ===== src/Masking.antt =====
-- sql/utils/data_masking.py: the cells of a result that are hidden.
pub mod Regex
pub mod Columns
pub mod Rows
pub mod Brute
pub mod Thirds
pub mod Untouched
pub mod Tests
