-- ===== src/Login.antt =====
-- common/auth.py: the login, and the lock after failed logins.
pub mod State
pub mod Authenticate
pub mod Lock
pub mod Guesses
pub mod Threshold
pub mod Tests
