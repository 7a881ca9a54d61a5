-- ===== src/Matching.antt =====
-- app/modules/match and the blocks of app/modules/safety: who may be matched with whom.
pub mod Data
pub mod Service
pub mod Ending
pub mod Mutual
pub mod Keeping
pub mod Requests
pub mod LikeBack
mod Tests
