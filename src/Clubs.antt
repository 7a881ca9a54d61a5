-- ===== src/Clubs.antt =====
-- app/modules/clubs/service.py: interest clubs, their members and their chats.
pub mod Data
pub mod Tags
pub mod Service
pub mod Founding
pub mod Manned
pub mod Private
pub mod Handlers
pub mod Membership
pub mod Opening
pub mod Requests
pub mod Standing
pub mod Conduct
pub mod Console
mod Tests
