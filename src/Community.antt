-- ===== src/Community.antt =====
-- Posts, likes, bookmarks, reposts and comments: app/modules/community/service.py.
pub mod Data
pub mod Service
pub mod Console
pub mod Counts
pub mod Writes
pub mod Authoring
pub mod Requests
pub mod Tests
