-- ===== src/Recommend.antt =====
-- app/modules/recommend: the order in which recommended activities are shown.
pub mod Diversify
pub mod Variety
mod Tests
