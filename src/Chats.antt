-- ===== src/Chats.antt =====
-- The conversations and friendships of app/modules/messaging/service.py.
pub mod Data
pub mod Members
pub mod Opening
pub mod Friends
pub mod Owned
pub mod Leaving
pub mod Departures
pub mod Keeping
pub mod Opened
pub mod Requests
pub mod Mutual
pub mod Company
pub mod Friendly
pub mod Tests
