-- ===== src/Auth.antt =====
-- Logging in and out: app/modules/auth/service.py.
pub mod Data
pub mod Codes
pub mod Accounts
pub mod Sessions
pub mod Requests
pub mod Spent
pub mod OneRefresh
pub mod OneLogin
pub mod Tests
