-- ===== src/Messaging.antt =====
-- app/modules/messaging/service.py: money sent in a conversation.
pub mod Transfers
pub mod InTransit
pub mod Conservation
pub mod Requests
pub mod Payout
mod Tests
