-- ===== src/Shared.antt =====
-- What app/shared gives to every module: errors, sessions, tables, idempotency keys and rate limits.
pub mod Errors
pub mod Action
pub mod Table
pub mod Idempotency
pub mod RateLimit
pub mod Pairs
pub mod Users
