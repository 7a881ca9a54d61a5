-- ===== src/Companion.antt =====
-- app/modules/companion: bookings of companions' slots.
pub mod Data
pub mod Booking
pub mod Steps
pub mod Lifecycle
pub mod Progress
pub mod PaidFor
pub mod Holding
pub mod Ordering
mod Tests
