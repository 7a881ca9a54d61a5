-- ===== src/Activity.antt =====
-- app/modules/activity/service.py: activities, their participants and their waitlists.
pub mod Data
pub mod Rows
pub mod Participation
pub mod Seats
pub mod Promotion
pub mod Handlers
pub mod Requests
pub mod Order
mod Tests
